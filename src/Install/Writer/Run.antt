-- ===== src/Install/Writer/Run.antt =====
-- A whole run of the writer.
use install_mikrotik_chr_scr.Common.{
  ◌≡◌, refl, ◌⊎◌, inl, inr, Bool, true, false, some, Result, ok, err, ◌>>◌, Bool-cases,
}
use install_mikrotik_chr_scr.Common.Int.{pos_part}
use install_mikrotik_chr_scr.Install.Copy.{Writer, copy_image}
use install_mikrotik_chr_scr.Install.Copy.Loop.{HoldsPrefix}
use install_mikrotik_chr_scr.Install.Copy.Image.{copy_image_prefix}
use install_mikrotik_chr_scr.Install.Writer.{
  WriterError, Calls, Opened, open_authorized, check_written, check_readback, ending,
  write_and_verify, go_on, run_writer,
}
use install_mikrotik_chr_scr.Install.Writer.Safety.{
  MayWrite, IsVerified, open_authorized-MayWrite, verified,
}

module _ {W : Type 0} (calls : Calls W) (writer : Writer W) where
  some-inj : {a b : W} → some a ≡ some b → a ≡ b
  some-inj h = cc

  ending-target :
      (reboot : Bool) (target t : W) (r : Result WriterError (Unit {0}))
      → (ending calls writer reboot target r).target ≡ some t
      → target ≡ t
  ending-target reboot target t (err e) h = some-inj h
  ending-target false target t (ok u) h = some-inj h
  ending-target true target t (ok u) h = elim (Bool-cases calls.reboot_works) [
    | inl e ↦ some-inj (rw e at h)
    | inr e ↦ some-inj (rw e at h)
  ]

  ending-ok :
      (reboot : Bool) (target : W) (r : Result WriterError (Unit {0}))
      → ((ending calls writer reboot target r).rebooted ≡ true)
        ⊎ ((ending calls writer reboot target r).result ≡ ok tt)
      → (r ≡ ok tt) × ((ending calls writer reboot target r).target ≡ some target)
  ending-ok reboot target (err e) (inl h) = cc
  ending-ok reboot target (err e) (inr h) = cc
  ending-ok false target (ok u) h = (refl, refl)
  ending-ok true target (ok u) h = elim (Bool-cases calls.reboot_works) [
    | inl e ↦ rw e (refl, refl)
    | inr e ↦ rw e (refl, refl)
  ]

  -- The target was opened under the conditions of `MayWrite`, and received a prefix of the image.
  pub record IsSafeWrite (t : W) : Type 0 where
    pub opened : Opened W
    pub allowed : MayWrite calls writer opened
    pub holds :
        HoldsPrefix writer opened.source.rest
          (writer.received opened.target)
          (pos_part opened.manifest.image_size)
          t

  safe :
      (reboot : Bool) (t : W) (r : Result WriterError (Opened W))
      → open_authorized calls writer ≡ r
      → (go_on calls writer reboot r).target ≡ some t
      → IsSafeWrite t
  unfolding write_and_verify
  safe reboot t (err e) q h = absurd (cc)
  safe reboot t (ok opened) q h =
      let same =
        ending-target reboot _ t
          (check_written calls writer opened.manifest _
            >> check_readback calls writer opened.manifest _)
          h in
      record {
        opened = opened;
        allowed = open_authorized-MayWrite calls writer opened q;
        holds = rw (← same) (
            copy_image_prefix writer opened.source opened.target
              (pos_part opened.manifest.image_size));
      }

  -- However a run ends, if it opened a target at all, the manifest authorized that disk and all the
  -- checks before the write had passed, and the target received a prefix of the image and no more
  -- than the size in the manifest.
  pub run_writer-IsSafeWrite :
      (reboot : Bool) (t : W) → (run_writer calls writer reboot).target ≡ some t → IsSafeWrite t
  unfolding run_writer
  run_writer-IsSafeWrite reboot t h = safe reboot t (open_authorized calls writer) refl h

  finished :
      (reboot : Bool) (r : Result WriterError (Opened W))
      → open_authorized calls writer ≡ r
      → ((go_on calls writer reboot r).rebooted ≡ true)
        ⊎ ((go_on calls writer reboot r).result ≡ ok tt)
      → (opened : Opened W) × (target : W) × MayWrite calls writer opened
        × ((go_on calls writer reboot r).target ≡ some target)
        × IsVerified calls writer opened target
  unfolding write_and_verify
  finished reboot (err e) q (inl h) = absurd (cc)
  finished reboot (err e) q (inr h) = absurd (cc)
  finished reboot (ok opened) q h =
      let may = open_authorized-MayWrite calls writer opened q in
      let o = copy_image writer opened.source opened.target (pos_part opened.manifest.image_size) in
      let (fine, is) =
        ending-ok reboot o.state.target
          (check_written calls writer opened.manifest o
            >> check_readback calls writer opened.manifest o.state.target)
          h in
      (opened, o.state.target, may, is, verified calls writer opened may.authorized fine)

  -- A run that reboots, or that reports success, has written the image to a disk that it was allowed
  -- to write: the disk received exactly the bytes of the authorized size, they have the manifest's
  -- hash, and the bytes read back from the disk have it too.
  pub run_writer-IsVerified :
      (reboot : Bool)
      → ((run_writer calls writer reboot).rebooted ≡ true)
        ⊎ ((run_writer calls writer reboot).result ≡ ok tt)
      → (opened : Opened W) × (target : W) × MayWrite calls writer opened
        × ((run_writer calls writer reboot).target ≡ some target)
        × IsVerified calls writer opened target
  unfolding run_writer
  run_writer-IsVerified reboot h = finished reboot (open_authorized calls writer) refl h
