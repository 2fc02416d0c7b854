-- ===== src/Mmu/Entries.antt =====
-- What the loops that fill a table leave in each entry.
use refix_os.Common.{
  ℕ, zero, suc, ◌≡◌, ◌<◌, ◌≤◌, ◌+◌, ◌-◌, ◌*◌, ◌∙◌, ◌==◌, ◌&&◌, leb, ltb, not, add32, if◌then◌else◌,
  arith, Bool, true, false, inl, subst, ==_iff, inr, Bool-cases,
}
use refix_os.Mmu.{
  Pgd, Board, map_section, map_sections, clear_entries, copy_entry, copy_entries, section_size,
  ident_lo, ident_hi, pgd_entries, shift20,
}

shifted :
    (v i : ℕ) → v + i < pgd_entries → add32 (v * section_size) (shift20 i) ≡ (v + i) * section_size
shifted v i h = omega arith

map_section_step :
    (pgd : Pgd) (v p attrs left i j : ℕ)
    → (if leb (v + (i + 1)) j && ltb j (v + (i + 1 + left))
        then (p + (j - v)) * section_size + attrs
        else map_section pgd ((v + i) * section_size) ((p + i) * section_size) attrs j)
      ≡ (if leb (v + i) j && ltb j (v + (i + suc left))
          then (p + (j - v)) * section_size + attrs
          else pgd j)
unfolding map_section
map_section_step pgd v p attrs left i j = ground arith

-- A loop that maps sections fills the run of entries it counts over, and leaves the others.
pub map_sections_lem :
    (pgd : Pgd) (v p attrs left i j : ℕ)
    → v + (i + left) ≤ pgd_entries
    → p + (i + left) ≤ pgd_entries
    → map_sections pgd (v * section_size) (p * section_size) attrs left i j ≡ (
        if leb (v + i) j && ltb j (v + (i + left))
        then (p + (j - v)) * section_size + attrs
        else pgd j)
unfolding map_sections
map_sections_lem pgd v p attrs zero i j h1 h2 = ground arith
map_sections_lem pgd v p attrs (suc left) i j h1 h2 =
    rw
      (
        shifted v i (omega arith),
        shifted p i (omega arith),
        map_sections_lem (map_section pgd ((v + i) * section_size) ((p + i) * section_size) attrs) v
            p attrs left (i + 1) j (omega arith) (omega arith),
      )
      (map_section_step pgd v p attrs left i j)

pub clear_entries_lem :
    (pgd : Pgd) (left i j : ℕ)
    → clear_entries pgd left i j ≡ (if leb i j && ltb j (i + left) then 0 else pgd j)
unfolding clear_entries
clear_entries_lem pgd zero i j = ground arith
clear_entries_lem pgd (suc left) i j =
    clear_entries_lem (λ j. if j == i then 0 else pgd j) left (i + 1) j ∙ ground arith

-- Whether the copy takes entry j over.
abbrev pub is_copied : Board → Pgd → ℕ → Bool
is_copied b boot j = not (boot j == 0) && not (leb (ident_lo b) j && ltb j (ident_hi b))

copy_entry_lem :
    (b : Board) (boot pgd : Pgd) (i j : ℕ)
    → copy_entry b boot pgd i j ≡ (if j == i && is_copied b boot i then boot i else pgd j)
unfolding copy_entry
copy_entry_lem b boot pgd i j = cases (boot i == 0) (leb (ident_lo b) i && ltb i (ident_hi b))
  where
    cases :
        (zero_entry ident : Bool)
        → (if zero_entry then pgd else if ident then pgd else λ j. if j == i then boot i else pgd j)
            j
          ≡ (if j == i && (not zero_entry && not ident) then boot i else pgd j)
    cases true ident = ground arith
    cases false true = ground arith
    cases false false = ground arith

-- The run that starts behind entry i, with entry i, is the run that starts at i.
merge_here :
    (i j left x y : ℕ) (c : Bool)
    → j ≡ i
    → (if leb (i + 1) j && ltb j (i + 1 + left) && c then x else if j == i && c then x else y)
      ≡ (if leb i j && ltb j (i + suc left) && c then x else y)
merge_here i j left x y true e = ground arith
merge_here i j left x y false e = ground arith

merge_other :
    (i j left x y z : ℕ) (c d : Bool)
    → (j == i) ≡ false
    → (if leb (i + 1) j && ltb j (i + 1 + left) && c then x else if j == i && d then z else y)
      ≡ (if leb i j && ltb j (i + suc left) && c then x else y)
merge_other i j left x y z true d e = ground arith
merge_other i j left x y z false d e = ground arith

merge :
    (b : Board) (boot : Pgd) (i j left y : ℕ)
    → (if leb (i + 1) j && ltb j (i + 1 + left) && is_copied b boot j
        then boot j
        else if j == i && is_copied b boot i
        then boot i
        else y)
      ≡ (if leb i j && ltb j (i + suc left) && is_copied b boot j then boot j else y)
merge b boot i j left y = elim (Bool-cases (j == i)) [
  | inl e ↦
      subst
        (λ n.
          (if leb (i + 1) j && ltb j (i + 1 + left) && is_copied b boot j
            then boot j
            else if j == i && is_copied b boot n
            then boot n
            else y)
          ≡ (if leb i j && ltb j (i + suc left) && is_copied b boot j then boot j else y))
        ((==_iff j i).0 e) (merge_here i j left (boot j) y (is_copied b boot j) ((==_iff j i).0 e))
  | inr e ↦ merge_other i j left (boot j) y (boot i) (is_copied b boot j) (is_copied b boot i) e
]

-- The copy loop takes over the entries of its run that `is_copied` names.
pub copy_entries_lem :
    (b : Board) (boot pgd : Pgd) (left i j : ℕ)
    → copy_entries b boot pgd left i j
      ≡ (if leb i j && ltb j (i + left) && is_copied b boot j then boot j else pgd j)
unfolding copy_entries
copy_entries_lem b boot pgd zero i j = ground arith
copy_entries_lem b boot pgd (suc left) i j =
    copy_entries_lem b boot (copy_entry b boot pgd i) left (i + 1) j
    ∙ (rw (copy_entry_lem b boot pgd i j) (merge b boot i j left (pgd j)))
