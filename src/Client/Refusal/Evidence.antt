-- ===== src/Client/Refusal/Evidence.antt =====
-- What a refused command of src/client/sync.rs is reported as, against what the lookups that classify
-- it found.
use remotefs_rs_ftp.Base.{
  sym, false, List, ◌∷◌, List-cases, ap, ◌∙◌, ◌≡◌, refl, ◌⊎◌, inl, inr, true, some, arith,
  Bool-cases,
}
use remotefs_rs_ftp.Error.{
  ftp_error, is_file_unavailable, bad_file, directory_not_empty, FtpError, RemoteError, kind,
  permission_denied, no_such_file_or_directory,
}
use remotefs_rs_ftp.FilePath.{FilePath, parent}
use remotefs_rs_ftp.Remotefs.{Remotefs, File}
use remotefs_rs_ftp.Listing.{ListParser}
use remotefs_rs_ftp.Suppaftp.{Suppaftp}
use remotefs_rs_ftp.Session.{State, Outcome, Fault, done, raised, fault}
use remotefs_rs_ftp.Client.Stat.{list_dir, is_no_such_file, stat}
use remotefs_rs_ftp.Client.Refusal.{classify_file_refusal, classify_remove_dir_refusal}

Outcome-cases {ℓ} :
    {A : Type ℓ} (o : Outcome A)
    → ((a : A) × (o ≡ done a))
      ⊎ ((e : RemoteError) × (o ≡ raised e))
      ⊎ ((f : Fault) × (o ≡ fault f))
Outcome-cases (done a) = inl (a, refl)
Outcome-cases (raised e) = inr (inl (e, refl))
Outcome-cases (fault f) = inr (inr (f, refl))

module _ ⦃E : Suppaftp⦄ ⦃R : Remotefs⦄ ⦃P : ListParser⦄ where
  -- The lookup of the path found that there is none.
  abbrev pub IsFoundAbsent : FilePath → State E → Type 0
  IsFoundAbsent path s =
      (probe : RemoteError) × ((stat path s).0 ≡ raised probe)
      × (is_no_such_file (kind probe) ≡ true)

  abbrev pub HasAbsentParent : FilePath → State E → Type 0
  HasAbsentParent path s = (above : FilePath) × (parent path ≡ some above) × IsFoundAbsent above s

  -- A refused `RMD` is reported as a missing path only if the lookup found none, as no directory
  -- only if it found something else, and as not empty only if it found a directory, whose listing then
  -- has entries; else permission is denied.
  pub classify_remove_dir_refusal-evidence :
      (path : FilePath) (error : FtpError) (e : RemoteError) (s s' : State E)
      → is_file_unavailable error ≡ true
      → classify_remove_dir_refusal path error s ≡ (done e, s')
      → ((kind e ≡ no_such_file_or_directory) × IsFoundAbsent path s)
        ⊎ ((kind e ≡ bad_file)
            × ((file : File) × ((stat path s).0 ≡ done file) × (R.is_dir file ≡ false)))
        ⊎ ((kind e ≡ directory_not_empty)
            × ((file : File) × ((stat path s).0 ≡ done file) × (R.is_dir file ≡ true))
            × ((entry : File) × (entries : List File) × ((list_dir path (stat path s).1).0
                  ≡ done (entry ∷ entries))))
        ⊎ (kind e ≡ permission_denied)
  unfolding classify_remove_dir_refusal kind
  classify_remove_dir_refusal-evidence path error e s s' refused h =
      elim (Outcome-cases (stat path s).0) [
        | inl (file, found) ↦ elim (Bool-cases (R.is_dir file)) [
          | inr other ↦ inr (inl (ground (arith, refused, found, other), (file, found, other)))
          | inl dir ↦ elim (Outcome-cases (list_dir path (stat path s).1).0) [
            | inl (entries, listed) ↦ elim (List-cases entries) [
              | inl empty ↦ inr (inr (inr (ground (arith, refused, found, dir, listed, empty))))
              | inr (x, xs, some_) ↦ inr (
                  inr (
                    inl (
                      ground (arith, refused, found, dir, listed, some_),
                      (file, found, dir),
                      (x, xs, listed ∙ ap done some_),
                    )))
            ]
            | inr (inl (x, failed)) ↦ inr (inr (inr (ground (arith, refused, found, dir, failed))))
            | inr (inr (f, broken)) ↦ absurd (ground (arith, refused, found, dir, broken))
          ]
        ]
        | inr (inl (probe, failed)) ↦ elim (Bool-cases (is_no_such_file (kind probe))) [
          | inl absent ↦ inl (ground (arith, refused, failed, absent), (probe, failed, absent))
          | inr other ↦ inr (inr (inr (ground (arith, refused, failed, other))))
        ]
        | inr (inr (f, broken)) ↦ absurd (ground (arith, refused, broken))
      ]

  -- A 550 refusal of a file operation is reported as a directory only if the lookup found one, and
  -- otherwise as a missing path, also where the lookup found a file or proved nothing.
  pub classify_file_refusal-evidence :
      (path : FilePath) (error : FtpError) (e : RemoteError) (s s' : State E)
      → is_file_unavailable error ≡ true
      → classify_file_refusal path error s ≡ (done e, s')
      → ((kind e ≡ bad_file)
          × ((file : File) × ((stat path s).0 ≡ done file) × (R.is_dir file ≡ true)))
        ⊎ ((kind e ≡ no_such_file_or_directory)
            × ((file : File) → (stat path s).0 ≡ done file → R.is_dir file ≡ false))
  unfolding classify_file_refusal kind is_file_unavailable ftp_error
  classify_file_refusal-evidence path error e s s' refused h =
      elim (Outcome-cases (stat path s).0) [
        | inl (file, found) ↦ elim (Bool-cases (R.is_dir file)) [
          | inl dir ↦ inl (ground (arith, refused, found, dir), (file, found, dir))
          | inr other ↦ inr (
            ground (arith, refused, found, other),
            λ g same. let eq : done file ≡ done g = sym found ∙ same in cc,
          )
        ]
        | inr (inl (probe, failed)) ↦
            inr (ground (arith, refused, failed), λ g same. absurd (ground (arith, failed, same)))
        | inr (inr (f, broken)) ↦ absurd (ground (arith, refused, broken))
      ]
