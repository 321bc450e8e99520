-- ===== src/Lib.antt =====
-- The verification library of chr-install, the installer that replaces a Debian or Ubuntu system
-- by MikroTik CHR.
--
-- The program inspects the host, its disk (Disk.Detect over Disk.Graph, the graph of block devices,
-- and Disk.Sysfs, for internal/disk/detect.go and internal/disk/fingerprint.go) and its network
-- (Network.Detect, Network.Routes, Network.Sources and Network.Plan, for internal/network/detect.go),
-- its system (Platform, for internal/platform/platform.go), and stops if something blocks the
-- installation (Preflight, for internal/preflight/preflight.go). It downloads the raw image
-- (Mikrotik.Download, Mikrotik.Range and Mikrotik.Metadata, for internal/mikrotik/client.go) and
-- checks its partition table (Mikrotik.Mbr, for internal/mikrotik/image.go). The reviewed network
-- plan (Network.Validate, for internal/network/validate.go) and the disk's fingerprint go into a
-- manifest (Install.Manifest, for internal/install/manifest.go). The staged writer boots from
-- memory by kexec or GRUB (Install.Stage, for internal/install/stage.go) after checks of the space
-- on disk and in memory (Install.Resources, for internal/install/resources.go). It validates the
-- manifest, finds the authorized disk (Disk.Match and Disk.Vpd, for internal/disk/fingerprint.go),
-- copies the image and reads it back (Install.Copy, for internal/install/write.go), and reboots
-- (Install.Writer, for internal/install/writer_linux.go). App has the revalidation of the target
-- of internal/app/app.go. Network.RouterOs is the script of internal/network/routeros.go, which
-- configures the installed system. Network.Dhcp models the packets of the probe of
-- internal/network/dhcp_linux.go, and Model the data of internal/model/model.go.
--
-- A definition has the name of the Go function or type in snake_case or UpperCamelCase: CopyImage is
-- copy_image, SelectAuthorizedFingerprint is select_authorized_fingerprint. A function that Go
-- writes as one block may have helpers here for its loop and for the parts behind a test. Go's pair
-- of a value and an error is the Result of Common, with a constructor for each message; a read of
-- a slice that can be out of range is the Run of Common.Slices, whose panic is Go's.
--
-- Strings and byte slices are lists of byte values; white space and letter case are the ASCII ones.
-- Machine integers are native natural numbers whose wrap-around is written out where the code adds
-- or multiplies; signed ones that can be negative are the ℤ of Common.Int. Times are nanoseconds
-- since Go's zero time and durations do not saturate. The 64-bit offsets of the image copy and of
-- the download are plain natural numbers, since their sizes are bounded before. sort.Slice and
-- sort.SliceStable are insertion sorts.
--
-- Loops that Go bounds by data run on fuel: copy_image has one round for each byte and one more,
-- since each round moves a byte at least; vpd_loop and options_loop have one for each byte of their
-- input, since each round moves on; fold_carries has three, which is enough for a uint32; the two
-- searches of Disk.Graph have one for each name in the graph and one more, since they enter no
-- kernel name twice. Theorems of the development say that this much is enough, but for the search
-- downwards of Disk.Graph.
--
-- The detectors take what the host answers as a record: the decoded output of each command, the
-- contents of each file, and the order in which Go goes through a map. The root directory is `/`.
-- Their issues have no message texts.
--
-- Parameters stand for code that is not in the repository: Network.Address.NetIp and NetTools
-- and Network.RouterOs.Printer for net and net/netip, Platform's unquote for strconv.Unquote, the
-- Writer of Install.Copy for an io.Writer by its contract, the digest of Install.Writer.Calls for
-- SHA-256, the World of Install.Stage for the commands and files, the rounds of Mikrotik.Download
-- for the HTTP server and the file system.
--
-- Not modelled: JSON, the terminal interface, the report, the command runner and raw sockets, being
-- input and output alone; the initramfs builder but for the quoting of Install.Initramfs, the
-- preparation of a stage and the order of the application's steps.
--
-- Common has the shared data, tests, lists and results, Common.Text the strings, Common.Decode the
-- number and hexadecimal readers, and Tests runs the models on concrete inputs.
mod Common
pub mod Model
pub mod Disk
pub mod Mikrotik
pub mod Install
pub mod Network
pub mod Platform
pub mod Preflight
pub mod App
mod Tests
