-- ===== src/Archive/Sound.antt =====
-- What `extract` returns, where it returns: the files of the inventory, as large as they are listed,
-- with the listed digests.
use freshen.Base.{
  ℕ, suc, ◌+◌, ◌^◌, ◌≤◌, ◌≡◌, refl, sym, ap, subst, ◌∙◌, Bool, true, false, not, ◌||◌, List, [],
  ◌∷◌, ◌++◌, map, Option, none, some, length, any, find, find-eq-some, contains, not-contains, ltb,
  leb, ◌==◌, list_eq, nat_eq, or-eq-false, Member, NoRepeat, All, arith,
}
use freshen.Base.Bytes.{Bytes, text, starts_with, to_ascii_lowercase, eq_ignore_ascii_case}
use freshen.Base.Outcome.{
  Result, ok, err, Error, cancelled, size_limit, invalid, hash_mismatch, reject_if, ok_or,
  ok-injective, ◌>>=◌, ◌>>◌,
}
use freshen.SafePath.{check_path}
use freshen.Manifest.{PackageFile}
use freshen.Crates.{Crates, Package}
use freshen.Archive.{
  ZipEntry, Unpacked, Progress, inventory, trim_end, file_type, is_odd_type, unpack, extract_file,
  extract_kind, extract_entry, extract_entries, extract,
}

-- What holds of the value of a result, where there is one.
record Returns {A : Type 0} (r : Result A) (Post : A → Type 0) : Type 0 where
  pub holds : (a : A) → r ≡ ok a → Post a

not-eq-false : (b : Bool) → (not b ≡ false → b ≡ true) × (b ≡ true → not b ≡ false)
not-eq-false b = (λ h. ground arith, λ h. ground arith)

ok-Returns : {A : Type 0} {Post : A → Type 0} {a : A} → Post a → Returns (ok a) Post
ok-Returns {Post} h = record { holds = λ b e. subst Post (ok-injective e) h }

some-of_ok : {A : Type 0} (o : Option A) (e : Error) {a : A} → ok_or o e ≡ ok a → o ≡ some a
some-of_ok none e h = cc
some-of_ok (some b) e h = ap some (ok-injective h)

guard-Returns :
    {A : Type 0} {Post : A → Type 0} (b : Bool) (e : Error) (m : Result A)
    → (b ≡ false → Returns m Post)
    → Returns (reject_if b e >> m) Post
guard-Returns true e m h = record { holds = λ a k. cc }
guard-Returns false e m h = h refl

bind-Returns :
    {A B : Type 0} {Post : B → Type 0} (r : Result A) (f : A → Result B)
    → ((a : A) → r ≡ ok a → Returns (f a) Post)
    → Returns (r >>= f) Post
bind-Returns (err e) f h = record { holds = λ a k. cc }
bind-Returns (ok a) f h = h a refl

module _ (C : Crates) (expected : List PackageFile) (max_unpacked : ℕ) where
  -- An unpacked file that is listed, with the listed size, digest and mode.
  abbrev pub IsListed : Unpacked → Type 0
  IsListed x =
      (f : PackageFile) × (Member f expected
        × ((f.path ≡ x.path)
            × ((length x.content ≡ f.size)
                × ((eq_ignore_ascii_case (C.sha256 x.content) f.sha256 ≡ true)
                    × (x.executable ≡ f.executable)))))

  abbrev pub bytes_of : List Unpacked → ℕ
  bytes_of [] = 0
  bytes_of (x ∷ xs) = length x.content + bytes_of xs

  abbrev pub folded_paths : List Unpacked → List Bytes
  folded_paths = map (λ x. to_ascii_lowercase x.path)

  pub record IsSound (p : Progress) : Type 0 where
    pub listed : All IsListed p.written
    pub counted : p.total ≡ bytes_of p.written
    pub within : p.total ≤ max_unpacked
    pub folded : p.seen ≡ folded_paths p.written
    pub distinct : NoRepeat p.seen

  -- One more file.
  added-IsSound :
      (f : PackageFile) (e : ZipEntry) (path : Bytes) (p : Progress)
      → Member f expected
      → f.path ≡ path
      → IsSound p
      → (content : Bytes)
      → (contains p.seen (to_ascii_lowercase path) || not (e.size == f.size)) ≡ false
      → ltb max_unpacked (p.total + f.size) ≡ false
      → (not (length content == f.size) || not (eq_ignore_ascii_case (C.sha256 content) f.sha256))
        ≡ false
      → IsSound (record {
        seen = to_ascii_lowercase path ∷ p.seen;
        total = p.total + f.size;
        written = record { path = path; content = content; executable = f.executable } ∷ p.written;
      })
  added-IsSound f e path p m named s content fresh within matches =
      let (l, h) =
        (or-eq-false (not (length content == f.size))
            (not (eq_ignore_ascii_case (C.sha256 content) f.sha256))).0
          matches in
      let (new, same_size) =
        (or-eq-false (contains p.seen (to_ascii_lowercase path)) (not (e.size == f.size))).0
          fresh in
      let long =
        (nat_eq.beq_iff (length content) f.size).0
          ((not-eq-false (length content == f.size)).0 l) in
      let digest = (not-eq-false (eq_ignore_ascii_case (C.sha256 content) f.sha256)).0 h in
      record {
        listed = ((f, (m, (named, (long, (digest, refl))))), s.listed);
        counted = let c = s.counted in omega arith;
        within = ground arith;
        folded = ap (λ l. to_ascii_lowercase path ∷ l) s.folded;
        distinct = (not-contains p.seen (to_ascii_lowercase path) new, s.distinct);
      }

  extract_file-Returns :
      (f : PackageFile) (e : ZipEntry) (path : Bytes) (p : Progress)
      → Member f expected
      → f.path ≡ path
      → IsSound p
      → Returns (extract_file C max_unpacked f e path p) IsSound
  unfolding extract_file
  extract_file-Returns f e path p m named s =
      guard-Returns (contains p.seen (to_ascii_lowercase path) || not (e.size == f.size))
        (invalid (text "duplicate or incorrect size for " ++ path)) _
        (λ fresh. guard-Returns (leb (2 ^ 64) (p.total + f.size)) size_limit _ (λ small.
          guard-Returns (ltb max_unpacked (p.total + f.size)) size_limit _ (λ within.
            bind-Returns e.create _ (λ u created.
              bind-Returns (unpack f.size e.chunks []) _ (λ content unpacked.
                guard-Returns
                  (not (length content == f.size)
                    || not (eq_ignore_ascii_case (C.sha256 content) f.sha256))
                  (hash_mismatch path) _
                  (λ matches. bind-Returns e.sync _ (λ v synced.
                    ok-Returns
                      (added-IsSound f e path p m named s content fresh within matches))))))))

  extract_kind-Returns :
      (e : ZipEntry) (path : Bytes) (is_dir : Bool) (p : Progress)
      → IsSound p
      → Returns (extract_kind C expected max_unpacked e path is_dir p) IsSound
  unfolding extract_kind
  extract_kind-Returns e path true p s =
      guard-Returns (not (any (λ f. starts_with f.path (path ++ b'/' ∷ [])) expected))
        (invalid (text "unlisted directory " ++ path)) _ (λ listed. ok-Returns s)
  extract_kind-Returns e path false p s =
      bind-Returns
        (ok_or (find (λ f. f.path == path) expected) (invalid (text "unlisted file " ++ path))) _
        (λ f found.
          let known =
            some-of_ok (find (λ f. f.path == path) expected)
              (invalid (text "unlisted file " ++ path)) found in
          let (m, t) = find-eq-some (λ f. f.path == path) expected known in
          extract_file-Returns f e path p m ((list_eq.beq_iff f.path path).0 t) s)

  extract_entry-Returns :
      (e : ZipEntry) (p : Progress)
      → IsSound p
      → Returns (extract_entry C expected max_unpacked e p) IsSound
  unfolding extract_entry
  extract_entry-Returns e p s = guard-Returns e.is_cancelled cancelled _ (λ running.
      bind-Returns e.found _ (λ v found. bind-Returns (check_path (trim_end e.name)) _ (λ u safe.
        guard-Returns (is_odd_type (file_type e.unix_mode))
          (invalid (text "archives may contain only regular files and directories")) _
          (λ regular. extract_kind-Returns e (trim_end e.name) e.is_dir p s))))

  extract_entries-Returns :
      (es : List ZipEntry) (p : Progress)
      → IsSound p
      → Returns (extract_entries C expected max_unpacked es p) IsSound
  unfolding extract_entries
  extract_entries-Returns [] p s = ok-Returns s
  extract_entries-Returns (e ∷ es) p s =
      bind-Returns (extract_entry C expected max_unpacked e p) _
        (λ q step. extract_entries-Returns es q ((extract_entry-Returns e p s).holds q step))

module _ (C : Crates) where
  abbrev Extracted : Package C → ℕ → List Unpacked → Type 0
  Extracted artifact max_unpacked files =
      All (IsListed C (inventory artifact.files) max_unpacked) files
      × ((length files ≡ length (inventory artifact.files))
          × (NoRepeat (folded_paths C (inventory artifact.files) max_unpacked files)
              × (bytes_of C (inventory artifact.files) max_unpacked files ≤ max_unpacked)))

  length-folded :
      (files : List PackageFile) (max_unpacked : ℕ) (xs : List Unpacked)
      → length (folded_paths C files max_unpacked xs) ≡ length xs
  length-folded files max_unpacked [] = refl
  length-folded files max_unpacked (x ∷ xs) = ap suc (length-folded files max_unpacked xs)

  complete :
      (artifact : Package C) (max_unpacked : ℕ) (p : Progress)
      → IsSound C (inventory artifact.files) max_unpacked p
      → not (length p.seen == length (inventory artifact.files)) ≡ false
      → Extracted artifact max_unpacked p.written
  complete artifact max_unpacked p s h = (
    s.listed,
    (
      sym (ap length s.folded ∙ length-folded (inventory artifact.files) max_unpacked p.written)
          ∙ (nat_eq.beq_iff (length p.seen) (length (inventory artifact.files))).0
              ((not-eq-false (length p.seen == length (inventory artifact.files))).0 h),
      (subst NoRepeat s.folded s.distinct, let c = s.counted in let w = s.within in omega arith),
    ),
  )

  -- When `extract` returns, every unpacked file is one of the inventory, with its path, size,
  -- digest and executable bit; there are as many of them as the inventory has, with paths that
  -- differ also up to the case of letters; and together they are no larger than the limit.
  pub extract-inverse :
      (entries : List ZipEntry) (artifact : Package C) (max_unpacked : ℕ) {files : List Unpacked}
      → extract C entries artifact max_unpacked ≡ ok files
      → All (IsListed C (inventory artifact.files) max_unpacked) files
        × ((length files ≡ length (inventory artifact.files))
            × (NoRepeat (folded_paths C (inventory artifact.files) max_unpacked files)
                × (bytes_of C (inventory artifact.files) max_unpacked files ≤ max_unpacked)))
  unfolding extract
  extract-inverse entries artifact max_unpacked {files} h =
      (guard-Returns {Post = Extracted artifact max_unpacked} (ltb 200000 (length entries))
          size_limit _
          (λ few.
            bind-Returns
              (extract_entries C (inventory artifact.files) max_unpacked entries
                (record { seen = []; total = 0; written = [] }))
              _
              (λ p run.
                let s =
                  (extract_entries-Returns C (inventory artifact.files) max_unpacked entries
                      (record { seen = []; total = 0; written = [] })
                      (record {
                        listed = tt;
                        counted = refl;
                        within = omega arith;
                        folded = refl;
                        distinct = tt;
                      })).holds
                    p run in
                guard-Returns (not (length p.seen == length (inventory artifact.files)))
                  (invalid (text "package is missing declared files")) _
                  (λ all. ok-Returns (complete artifact max_unpacked p s all))))).holds
        files h
