-- ===== src/Install/Resources/Bounds.antt =====
-- The checks of resources.go against the amounts without a bound.
use install_mikrotik_chr_scr.Common.{
  ℕ, ◌+◌, ◌*◌, ◌/◌, ◌%◌, ◌^◌, ◌≤◌, ◌<◌, ◌≡◌, refl, ◌↔◌, ◌||◌, List, [], ◌∷◌, Option, none, some,
  ltb, ◌==◌, Result, ok, ◌>>◌, refuse_if, subst, >>=-eq-ok, arith,
}
use install_mikrotik_chr_scr.Common.Text.{Bytes}
use install_mikrotik_chr_scr.Common.Decode.{parse_uint, max_u64, parse_uint-le}
use install_mikrotik_chr_scr.Common.Int.{ℤ, pos, negsuc, pos_part, leb_ℤ}
use install_mikrotik_chr_scr.Install.Resources.{
  max_uint64, writer_memory_spare, Statfs, ResourceError, overflowing_metadata, no_space,
  no_memory_metadata, incomplete_listing, check_estimate, ensure_filesystem_space, split_lines,
  fields, size_field, add_size, add_line, listing_loop, parse_initramfs_listing,
  validate_initramfs_memory,
}
use native.Mathlib.Nat.{le-div_iff_mul-le}

abbrev space_steps : ℕ → ℕ → ℕ → Result ResourceError (Unit {0})
space_steps blocks size required = do
  refuse_if (ltb (max_uint64 / size) blocks) overflowing_metadata
  refuse_if (ltb (blocks * size % 2 ^ 64) required) no_space

-- The file system reports `blocks` free blocks of `size` bytes, whose number of bytes is below
-- 2 ^ 64 and enough.
pub record HasSpace (s : Option Statfs) (required : ℕ) : Type 0 where
  pub blocks : ℕ
  pub size : ℕ
  pub reports : s ≡ some (record { bavail = pos blocks; bsize = pos size })
  pub positive : 0 < size
  pub in_range : blocks * size < 2 ^ 64
  pub enough : required ≤ blocks * size

steps_sound :
    (blocks size required : ℕ)
    → 0 < size
    → space_steps blocks size required ≡ ok tt
    → (blocks * size < 2 ^ 64) × (required ≤ blocks * size)
steps_sound blocks size required p h =
    let low : blocks ≤ max_uint64 / size = ground (arith, h) in
    let fits : blocks * size ≤ max_uint64 = (le-div_iff_mul-le p).0 low in
    (omega arith, ground (arith, h, fits))

steps_complete :
    (blocks size required : ℕ)
    → 0 < size
    → blocks * size < 2 ^ 64
    → required ≤ blocks * size
    → space_steps blocks size required ≡ ok tt
steps_complete blocks size required p r e =
    let low : blocks ≤ max_uint64 / size = (le-div_iff_mul-le p).1 (omega arith) in
    ground (arith, low, r, e)

-- The check of the free space passes exactly when the file system reports blocks of a positive
-- size whose bytes, counted without a bound, are fewer than 2 ^ 64 and at least those required.
pub ensure_filesystem_space_iff :
    (s : Option Statfs) (required : ℕ)
    → (ensure_filesystem_space s required ≡ ok tt) ↔ HasSpace s required
unfolding ensure_filesystem_space
ensure_filesystem_space_iff none required = (λ h. cc, λ h. cc (h.reports))
ensure_filesystem_space_iff (some s) required = (sound s.bavail s.bsize, λ h. complete s h)
  where
    sound :
        (a b : ℤ)
        → ensure_filesystem_space (some (record { bavail = a; bsize = b })) required ≡ ok tt
        → HasSpace (some (record { bavail = a; bsize = b })) required
    sound (negsuc n) z h = absurd (ground arith)
    sound (pos n) (negsuc k) h = absurd (ground arith)
    sound (pos n) (pos k) h =
        let p : 0 < k = ground arith in
        let rest : space_steps n k required ≡ ok tt = ground (arith, h, p) in
        let (r, e) = steps_sound n k required p rest in
        record { blocks = n; size = k; reports = refl; positive = p; in_range = r; enough = e }

    complete :
        (s : Statfs)
        → HasSpace (some s) required
        → ensure_filesystem_space (some s) required ≡ ok tt
    complete s h =
        let same : s ≡ record { bavail = pos h.blocks; bsize = pos h.size } = cc (h.reports) in
        let steps : space_steps h.blocks h.size required ≡ ok tt =
          steps_complete h.blocks h.size required h.positive h.in_range h.enough in
        rw same (ground (arith, h.positive, steps))

abbrev pub size_or_zero : Option ℕ → ℕ
size_or_zero none = 0
size_or_zero (some n) = n

-- What a line adds to the total: the size, if it lists a regular file.
abbrev pub listed_size : Option Bytes → ℕ
listed_size none = 0
listed_size (some digits) = size_or_zero (parse_uint digits)

-- The sum of the listed sizes, without a bound.
abbrev pub sum_listed : List Bytes → ℕ
sum_listed [] = 0
sum_listed (l ∷ ls) = listed_size (size_field (fields l)) + sum_listed ls

add_size_lem :
    (total : ℕ) (o : Option ℕ) {t : ℕ}
    → total < 2 ^ 64
    → ((m : ℕ) → o ≡ some m → m ≤ max_u64)
    → add_size total o ≡ ok t
    → (t ≡ total + size_or_zero o) × (t < 2 ^ 64)
add_size_lem total none p b h = cc
add_size_lem total (some n) p b h = let le : n ≤ max_u64 = b n refl in ground (arith, h, p, le)

add_line_lem :
    (total : ℕ) (o : Option Bytes) {t : ℕ}
    → total < 2 ^ 64
    → add_line total o ≡ ok t
    → (t ≡ total + listed_size o) × (t < 2 ^ 64)
unfolding add_line
add_line_lem total none {t} p h = (ground arith, ground arith)
add_line_lem total (some digits) {t} p h =
    add_size_lem total (parse_uint digits) p (λ m e. parse_uint-le digits e) h

listing_loop_lem :
    (ls : List Bytes) (total files : ℕ) {n : ℕ}
    → total < 2 ^ 64
    → listing_loop ls total files ≡ ok n
    → (n ≡ total + sum_listed ls) × (n < 2 ^ 64)
unfolding listing_loop
listing_loop_lem [] total files {n} p h = ground arith
listing_loop_lem (l ∷ ls) total files {n} p h =
    let (t, e, k) = >>=-eq-ok (add_line total (size_field (fields l))) _ h in
    let (same, low) = add_line_lem total (size_field (fields l)) p e in
    let (sum, high) = listing_loop_lem ls t _ low k in (omega arith, high)

-- The total that `parseInitramfsListing` returns is the sum of the sizes of the regular files that
-- the lines list, without a bound, and it is below 2 ^ 64: no addition wraps around.
pub parse_initramfs_listing-sum_listed :
    (d : Bytes) {n : ℕ}
    → parse_initramfs_listing d ≡ ok n
    → (n ≡ sum_listed (split_lines d)) × (n < 2 ^ 64)
unfolding parse_initramfs_listing
parse_initramfs_listing-sum_listed d {n} h =
    let (sum, low) = listing_loop_lem (split_lines d) 0 0 (omega arith) h in (omega arith, low)

-- The staged writer's memory: what was unpacked, its compressed form and the spare, all added
-- without a bound, fit the host, and the image is among what was unpacked.
pub record FitsMemory (unpacked memory : ℕ) (image_size : ℤ) (compressed : Option ℕ) : Type 0 where
  pub file : ℕ
  pub stated : compressed ≡ some file
  pub image : ℕ
  pub image_is : image_size ≡ pos image
  pub not_empty : 0 < image
  pub unpacks : image ≤ unpacked
  pub fits : unpacked + file + writer_memory_spare ≤ memory

fits_memory :
    (unpacked memory : ℕ) (image_size : ℤ) (compressed : Option ℕ)
    → (refuse_if (leb_ℤ image_size (pos 0) || ltb unpacked (pos_part image_size)) incomplete_listing
        >> check_estimate memory unpacked compressed)
      ≡ ok tt
    → FitsMemory unpacked memory image_size compressed
fits_memory u m (negsuc n) c h = absurd (ground arith)
fits_memory u m (pos n) none h = absurd (ground arith)
fits_memory u m (pos n) (some c) h = record {
  file = c;
  stated = refl;
  image = n;
  image_is = refl;
  not_empty = ground (arith, h);
  unpacks = ground (arith, h);
  fits = ground (arith, h);
}

-- When the memory check passes, `lsinitramfs` gave a listing whose sum of sizes, together with the
-- size of the built file and the spare, is at most the memory of the host, added without a bound,
-- and is at least the size of the image, which is positive.
pub validate_initramfs_memory-FitsMemory :
    (output : Option Bytes) (compressed : Option ℕ) (memory : ℕ) (image_size : ℤ)
    → validate_initramfs_memory output compressed memory image_size ≡ ok tt
    → (d : Bytes) × (output ≡ some d)
      × FitsMemory (sum_listed (split_lines d)) memory image_size compressed
unfolding validate_initramfs_memory
validate_initramfs_memory-FitsMemory none c m i h = absurd (ground arith)
validate_initramfs_memory-FitsMemory (some d) c m i h =
    let (u, e, k) = >>=-eq-ok (refuse_if (m == 0) no_memory_metadata) _ h in
    let (n, parsed, rest) = >>=-eq-ok (parse_initramfs_listing d) _ k in
    let (sum, low) = parse_initramfs_listing-sum_listed d parsed in
    (d, refl, subst (λ t. FitsMemory t m i c) sum (fits_memory n m i c rest))
