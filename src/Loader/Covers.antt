-- ===== src/Loader/Covers.antt =====
-- Lists of mappings for loader/loader.c that hold all that is mapped.
use embedded_systems_runtime.Prelude.{
  ℕ, ◌+◌, ◌-◌, ◌≡◌, ◌⊎◌, refl, subst, ◌∙◌, inl, inr, Bool, true, false, ◌||◌, List, [], ◌∷◌, ◌++◌,
  if◌then◌else◌, if_both, append_assoc, Bool-cases, arith,
}
use embedded_systems_runtime.Loader.{
  GenericPhdr, LoaderError, Effect, map_file, clear, map_zeros, unmap, Mapped, failed_with, Layout,
  clear_tail,
}
use embedded_systems_runtime.Loader.Memory.{
  Cell, unmapped, zeroed, from_file, inside, cleared, cell_after, cell_of, cell_of-append,
}
use embedded_systems_runtime.Loader.Image.{loader_unmap_all}

-- An address lies in one of the mappings.
abbrev pub in_any : List (ℕ × ℕ) → ℕ → Bool
in_any [] x = false
in_any ((start, size) ∷ mappings) x = inside start size x || in_any mappings x

in_any-append : (a b : List (ℕ × ℕ)) (x : ℕ) → in_any (a ++ b) x ≡ (in_any a x || in_any b x)
in_any-append [] b x = refl
in_any-append ((start, size) ∷ a) b x = ground (arith, in_any-append a b x)

pub cell_of-unmap_all :
    (mappings : List (ℕ × ℕ)) (x : ℕ) (c : Cell)
    → cell_of (loader_unmap_all mappings) x c ≡ (if in_any mappings x then unmapped else c)
unfolding loader_unmap_all cell_of cell_after
cell_of-unmap_all [] x c = refl
cell_of-unmap_all ((start, size) ∷ mappings) x c =
    cell_of-append (loader_unmap_all mappings) (unmap start size ∷ []) x c
    ∙ ground (arith, cell_of-unmap_all mappings x c)

-- What stands at an address is in the list of mappings.
abbrev pub Covers : List (ℕ × ℕ) → ℕ → Cell → Type 0
Covers mappings x c = (c ≡ unmapped) ⊎ (in_any mappings x ≡ true)

pub Covers-more : (a b : List (ℕ × ℕ)) (x : ℕ) (c : Cell) → Covers a x c → Covers (a ++ b) x c
Covers-more a b x c (inl e) = inl e
Covers-more a b x c (inr e) = inr (in_any-append a b x ∙ ground arith)

-- A part of the loader's work that keeps its list complete.
abbrev pub KeepsList : List Effect → List (ℕ × ℕ) → Type 0
KeepsList effects added =
    (mappings : List (ℕ × ℕ)) (x : ℕ) (c : Cell)
    → Covers mappings x c
    → Covers (mappings ++ added) x (cell_of effects x c)

abbrev pub Keeps : Mapped → Type 0
Keeps m = KeepsList m.effects m.mappings

pub KeepsList-none : KeepsList [] []
unfolding cell_of
KeepsList-none ms x c h = Covers-more ms [] x c h

pub KeepsList-append :
    (es fs : List Effect) (a b : List (ℕ × ℕ))
    → KeepsList es a
    → KeepsList fs b
    → KeepsList (es ++ fs) (a ++ b)
KeepsList-append es fs a b k l ms x c h = rw (cell_of-append es fs x c) (
    subst (λ (m : List (ℕ × ℕ)). Covers m x (cell_of fs x (cell_of es x c))) (append_assoc ms a b)
      (l (ms ++ a) x (cell_of es x c) (k ms x c h)))

pub failed_with-Keeps : (e : LoaderError) → Keeps (failed_with e)
unfolding failed_with
failed_with-Keeps e = KeepsList-none

Covers-region :
    (ms : List (ℕ × ℕ)) (start size x : ℕ) (v c : Cell)
    → Covers ms x c
    → Covers (ms ++ (start, size) ∷ []) x (if inside start size x then v else c)
Covers-region ms start size x v c h = elim (Bool-cases (inside start size x)) [
  | inl e ↦ rw e (inr (in_any-append ms ((start, size) ∷ []) x ∙ ground arith))
  | inr e ↦ rw e (Covers-more ms ((start, size) ∷ []) x c h)
]

pub map_file-KeepsList :
    (start size offset : ℕ) → KeepsList (map_file start size offset ∷ []) ((start, size) ∷ [])
unfolding cell_of cell_after
map_file-KeepsList start size offset ms x c h =
    Covers-region ms start size x (from_file (offset + (x - start))) c h

pub map_zeros-KeepsList :
    (start size prot : ℕ) → KeepsList (map_zeros start size prot ∷ []) ((start, size) ∷ [])
unfolding cell_of cell_after
map_zeros-KeepsList start size prot ms x c h = Covers-region ms start size x zeroed c h

-- A region that is mapped and unmapped again.
pub undone-KeepsList :
    (e : Effect) (start size : ℕ)
    → KeepsList (e ∷ []) ((start, size) ∷ [])
    → KeepsList (e ∷ unmap start size ∷ []) []
unfolding cell_of cell_after
undone-KeepsList e start size k ms x c h = elim (Bool-cases (inside start size x)) [
  | inl f ↦ rw f (inl refl)
  | inr f ↦ rw f (left f (k ms x c h))
]
  where
    left :
        inside start size x ≡ false
        → Covers (ms ++ (start, size) ∷ []) x (cell_after e x c)
        → Covers (ms ++ []) x (cell_after e x c)
    left f (inl g) = inl g
    left f (inr g) =
        inr (ground (arith, in_any-append ms ((start, size) ∷ []) x, in_any-append ms [] x))

cleared-Covers : (ms : List (ℕ × ℕ)) (x : ℕ) (c : Cell) → Covers ms x c → Covers ms x (cleared c)
unfolding cleared
cleared-Covers ms x unmapped h = inl refl
cleared-Covers ms x zeroed h = h
cleared-Covers ms x (from_file k) (inl e) = absurd (ground arith)
cleared-Covers ms x (from_file k) (inr e) = inr e

pub clear_tail-KeepsList : (p : GenericPhdr) (l : Layout) → KeepsList (clear_tail p l) []
unfolding clear_tail
clear_tail-KeepsList p l =
    if_both (λ (es : List Effect). KeepsList es []) _ _ [] (clear-KeepsList _ _) KeepsList-none
  where
    clear-KeepsList : (start size : ℕ) → KeepsList (clear start size ∷ []) []
    clear-KeepsList start size ms x c h =
        unfold cell_of cell_after in
        Covers-more ms [] x (if inside start size x then cleared c else c)
          (if_both (Covers ms x) (inside start size x) (cleared c) c (cleared-Covers ms x c h) h)
