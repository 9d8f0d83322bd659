-- ===== src/Dumper/Fds/Shared.antt =====
-- Marking shared files keeps a table of descriptors one that the restore accepts.
use ksnap.Base.{◌≡◌, refl, ◌∙◌, sym, ◌⊎◌, inl, inr, List, [], ◌∷◌, All, arith, length}
use ksnap.Base.Int.{ℤ, ◌<ℤ◌}
use ksnap.Base.Text.{Bytes}
use ksnap.Format.{FdDescriptor}
use ksnap.Restorer.FdTable.Spec.{Numbered, IsFdEntry, IsFdTable}
use ksnap.Dumper.Fds.{
  Compared, compare_failed, same_open_file, different, Search, search_failed, no_original, original,
  try_original, find_original, marked, find_shared_files,
}

pub Search-cases :
    (s : Search) → (s ≡ search_failed) ⊎ ((s ≡ no_original) ⊎ ((fd : ℤ) × (s ≡ original fd)))
Search-cases search_failed = inl refl
Search-cases no_original = inr (inl refl)
Search-cases (original fd) = inr (inr (fd, refl))

-- The same numbers, entry by entry.
abbrev SameFds : List FdDescriptor → List FdDescriptor → Type 0
SameFds [] [] = Unit
SameFds (a ∷ l) (b ∷ m) = (a.fd ≡ b.fd) × SameFds l m
SameFds _ _ = ⊥

SameFds-refl : (l : List FdDescriptor) → SameFds l l
SameFds-refl [] = tt
SameFds-refl (a ∷ l) = (refl, SameFds-refl l)

Numbered-SameFds :
    (key : ℤ) (l m : List FdDescriptor) → SameFds l m → Numbered key l → Numbered key m
Numbered-SameFds key [] [] s h = h
Numbered-SameFds key (a ∷ l) (b ∷ m) (e, s) (inl h) = inl (sym e ∙ h)
Numbered-SameFds key (a ∷ l) (b ∷ m) (e, s) (inr h) = inr (Numbered-SameFds key l m s h)
Numbered-SameFds key [] (b ∷ m) s h = absurd s
Numbered-SameFds key (a ∷ l) [] s h = absurd s

All-SameFds :
    (top : ℤ) (l m : List FdDescriptor)
    → SameFds l m
    → All (λ (x : FdDescriptor). x.fd <ℤ top) l
    → All (λ (x : FdDescriptor). x.fd <ℤ top) m
All-SameFds top [] [] s h = h
All-SameFds top (a ∷ l) (b ∷ m) (e, s) (h, k) = (rw (← e) h, All-SameFds top l m s k)
All-SameFds top [] (b ∷ m) s h = absurd s
All-SameFds top (a ∷ l) [] s h = absurd s

-- An entry stays valid behind entries of the same numbers.
IsFdEntry-SameFds :
    (pool : Bytes) (l m : List FdDescriptor) (e : FdDescriptor)
    → SameFds l m
    → IsFdEntry pool l e
    → IsFdEntry pool m e
IsFdEntry-SameFds pool l m e s v = record {
  above_stdio = v.above_stdio;
  ascending = All-SameFds e.fd l m s v.ascending;
  shares = elim v.shares [
    | inl own ↦ inl own
    | inr known ↦ inr (Numbered-SameFds e.dup_of l m s known)
  ];
  creates_nothing = v.creates_nothing;
  path_some = v.path_some;
  path_short = v.path_short;
  path_inside = v.path_inside;
  path_text = v.path_text;
}

IsFdTable-SameFds :
    (pool : Bytes) (l m fds : List FdDescriptor)
    → SameFds l m
    → IsFdTable pool l fds
    → IsFdTable pool m fds
IsFdTable-SameFds pool l m [] s v = tt
IsFdTable-SameFds pool l m (e ∷ fds) s (v, rest) =
    (IsFdEntry-SameFds pool l m e s v, IsFdTable-SameFds pool (e ∷ l) (e ∷ m) fds (refl, s) rest)

marked-IsFdEntry :
    (pool : Bytes) (l : List FdDescriptor) (e : FdDescriptor) (fd : ℤ)
    → Numbered fd l
    → IsFdEntry pool l e
    → IsFdEntry pool l (marked e fd)
marked-IsFdEntry pool l e fd known v = record {
  above_stdio = v.above_stdio;
  ascending = v.ascending;
  shares = inr known;
  creates_nothing = v.creates_nothing;
  path_some = v.path_some;
  path_short = v.path_short;
  path_inside = v.path_inside;
  path_text = record {
    terminated = v.path_text.terminated;
    no_terminator = v.path_text.no_terminator;
  };
}

module _ (kcmp : ℤ → ℤ → Compared) (pool : Bytes) where
  try_original-fd :
      (x e : FdDescriptor) {fd : ℤ} → try_original kcmp pool x e ≡ original fd → x.fd ≡ fd
  unfolding try_original
  try_original-fd x e {fd} h =
      elim (kcmp x.fd e.fd) as (λ c. kcmp x.fd e.fd ≡ c → x.fd ≡ fd) [
        | compare_failed ↦ λ k. ground (arith, k)
        | same_open_file ↦ λ k. ground (arith, k)
        | different ↦ λ k. ground (arith, k)
      ]
        refl

  -- What the inner loop finds is an earlier entry.
  pub find_original-Numbered :
      (earlier : List FdDescriptor) (e : FdDescriptor) {fd : ℤ}
      → find_original kcmp pool earlier e ≡ original fd
      → Numbered fd earlier
  unfolding find_original
  find_original-Numbered [] e h = cc
  find_original-Numbered (x ∷ earlier) e {fd} h =
      elim (Search-cases (find_original kcmp pool earlier e)) [
        | inl s ↦ ground (arith, s)
        | inr (inl s) ↦ inl (try_original-fd x e cc)
        | inr (inr (n, s)) ↦ inr (find_original-Numbered earlier e cc)
      ]

  module _ (earlier : List FdDescriptor) (e : FdDescriptor) (fds : List FdDescriptor) where
    pub find_shared_files-failed :
        find_original kcmp pool earlier e ≡ search_failed
        → find_shared_files kcmp pool earlier (e ∷ fds) ≡ e ∷ fds
    unfolding find_shared_files
    find_shared_files-failed h = cc

    pub find_shared_files-alone :
        find_original kcmp pool earlier e ≡ no_original
        → find_shared_files kcmp pool earlier (e ∷ fds)
          ≡ e ∷ find_shared_files kcmp pool (e ∷ earlier) fds
    unfolding find_shared_files
    find_shared_files-alone h = cc

    pub find_shared_files-marked :
        {n : ℤ}
        → find_original kcmp pool earlier e ≡ original n
        → find_shared_files kcmp pool earlier (e ∷ fds)
          ≡ marked e n ∷ find_shared_files kcmp pool (marked e n ∷ earlier) fds
    unfolding find_shared_files
    find_shared_files-marked h = cc

  -- A table that the restore accepts before shared files are marked is accepted afterwards.
  pub find_shared_files-IsFdTable :
      (earlier fds : List FdDescriptor)
      → IsFdTable pool earlier fds
      → IsFdTable pool earlier (find_shared_files kcmp pool earlier fds)
  unfolding find_shared_files
  find_shared_files-IsFdTable earlier [] v = tt
  find_shared_files-IsFdTable earlier (e ∷ fds) v =
      elim (Search-cases (find_original kcmp pool earlier e)) [
        | inl s ↦ rw (find_shared_files-failed earlier e fds s) v
        | inr (inl s) ↦
            rw (find_shared_files-alone earlier e fds s)
              (v.0, find_shared_files-IsFdTable (e ∷ earlier) fds v.1)
        | inr (inr (n, s)) ↦
            let m = marked e n in
            rw (find_shared_files-marked earlier e fds s) (
              marked-IsFdEntry pool earlier e n (find_original-Numbered earlier e s) v.0,
              find_shared_files-IsFdTable (m ∷ earlier) fds (
                  IsFdTable-SameFds pool (e ∷ earlier) (m ∷ earlier) fds
                    (refl, SameFds-refl earlier) v.1),
            )
      ]

pub length-find_shared_files :
    (kcmp : ℤ → ℤ → Compared) (pool : Bytes) (earlier fds : List FdDescriptor)
    → length (find_shared_files kcmp pool earlier fds) ≡ length fds
unfolding find_shared_files
length-find_shared_files kcmp pool earlier [] = refl
length-find_shared_files kcmp pool earlier (e ∷ fds) =
    elim (Search-cases (find_original kcmp pool earlier e)) [
      | inl h ↦ ground (arith, h)
      | inr (inl h) ↦ ground (arith, h, length-find_shared_files kcmp pool (e ∷ earlier) fds)
      | inr (inr (n, h)) ↦
          ground (arith, h, length-find_shared_files kcmp pool (marked e n ∷ earlier) fds)
    ]
