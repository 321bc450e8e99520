-- ===== src/Mikrotik/Download/Rounds.antt =====
-- All the attempts of a download.
use install_mikrotik_chr_scr.Common.{
  ℕ, ◌≡◌, refl, sym, subst, inl, inr, true, not, ◌&&◌, List, [], ◌∷◌, some, ◌==◌, length, All,
  Bool-cases,
}
use install_mikrotik_chr_scr.Common.Text.{Bytes}
use install_mikrotik_chr_scr.Mikrotik.Download.{
  PartialFile, content, Attempt, download_once, Round, is_ok, download_rounds, download,
}
use install_mikrotik_chr_scr.Mikrotik.Download.Resume.{
  IsPrefix, IsHonestServer, IsEnd, same, more, done, once-IsEnd,
}

module _ (whole : Bytes) (maximum : ℕ) where
  -- The attempts left the beginning of `whole` or nothing in the partial file; where they
  -- report success, the destination is `whole`.
  pub record IsFaithful (a : Attempt) : Type 0 where
    pub partial_is : IsPrefix (content a.file) whole
    pub success : is_ok a.result ≡ true → a.destination ≡ some whole

  IsEnd-IsFaithful :
      (file : PartialFile) (a : Attempt)
      → IsPrefix (content file) whole
      → IsEnd whole file a
      → IsFaithful a
  IsEnd-IsFaithful file a known (same f d r) = record {
    partial_is = subst (λ t. IsPrefix (content t) whole) (sym f) known;
    success = λ y. cc;
  }
  IsEnd-IsFaithful file a known (more b pre f d r) = record {
    partial_is = subst (λ t. IsPrefix (content t) whole) (sym f) pre;
    success = λ y. cc;
  }
  IsEnd-IsFaithful file a known (done f d r) = record {
    partial_is = subst (λ t. IsPrefix (content t) whole) (sym f) (whole, refl);
    success = λ y. d;
  }

  rounds-IsFaithful :
      (rs : List Round) (file : PartialFile)
      → IsPrefix (content file) whole
      → All (λ r. IsHonestServer whole r.server) rs
      → IsFaithful (download_rounds maximum file rs)
  unfolding download_rounds
  rounds-IsFaithful [] file known h = record { partial_is = known; success = λ y. cc }
  rounds-IsFaithful (r ∷ rs) file known (honest, h) =
      let a = download_once maximum file r.server r.calls in
      let first : IsFaithful a =
        IsEnd-IsFaithful file a known
          (once-IsEnd whole maximum file known r.server r.calls honest) in
      elim (Bool-cases (is_ok a.result)) [
        | inl e ↦ rw e first
        | inr e ↦ elim (Bool-cases (r.cancelled && not (length rs == 0))) [
          | inl c ↦ rw (e, c) (record { partial_is = first.partial_is; success = λ y. cc })
          | inr c ↦ rw (e, c) (rounds-IsFaithful rs a.file first.partial_is h)
        ]
      ]

  -- Let every server that the five attempts meet deliver the bytes of one archive from where it says: a
  -- response with status 200 from the start, and with status 206 from the start of its `Content-Range`,
  -- whose total is the archive's length. A response with status 200 announces the archive's length as
  -- its `Content-Length`, or it has none and its reader fails where the body ends too early. Let the
  -- partial file hold a beginning of the archive. Then, whatever the file operations do and wherever
  -- responses break off, the download that succeeds leaves the whole archive and no other bytes at the
  -- destination, and what is kept for the next run is again a beginning of the archive.
  pub download-IsFaithful :
      (file : PartialFile) (r1 r2 r3 r4 r5 : Round)
      → IsPrefix (content file) whole
      → All (λ r. IsHonestServer whole r.server) (r1 ∷ r2 ∷ r3 ∷ r4 ∷ r5 ∷ [])
      → IsFaithful (download maximum file r1 r2 r3 r4 r5)
  unfolding download
  download-IsFaithful file r1 r2 r3 r4 r5 known h =
      rounds-IsFaithful (r1 ∷ r2 ∷ r3 ∷ r4 ∷ r5 ∷ []) file known h
