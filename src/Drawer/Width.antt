-- ===== src/Drawer/Width.antt =====
-- The width of a drawer, without sorting.
use hdns.Prelude.{
  ℕ, ◌≤◌, ◌≡◌, refl, Option, none, some, List, [], ◌∷◌, arith, get_or, leb, if◌then◌else◌, All,
  Bool-cases, inl, inr,
}
use hdns.Drawer.{Breakpoint, insert, sort, first_fit, calculate_width}

-- Of the breakpoints that are at least as wide as the window, the narrowest; of several, the first.
abbrev pub narrower : Breakpoint → Option Breakpoint → Option Breakpoint
narrower b none = some b
narrower b (some c) = if leb b.max_width c.max_width then some b else some c

unfoldable pub narrowest : ℕ → List Breakpoint → Option Breakpoint
narrowest current [] = none
narrowest current (b ∷ bs) =
    let rest = narrowest current bs in if leb current b.max_width then narrower b rest else rest

-- The first breakpoint that fits.
first : ℕ → List Breakpoint → Option Breakpoint
first current [] = none
first current (b ∷ bs) =
    let rest = first current bs in if leb current b.max_width then some b else rest

abbrev pub width_of : Option Breakpoint → Option ℕ
width_of none = none
width_of (some b) = some b.width

first_fit-first :
    (current : ℕ) (bs : List Breakpoint) → first_fit current bs ≡ width_of (first current bs)
unfolding first_fit first
first_fit-first current [] = refl
first_fit-first current (b ∷ bs) = ground (arith, first_fit-first current bs)

abbrev IsSorted : List Breakpoint → Type 0
IsSorted [] = Unit
IsSorted (b ∷ bs) = All (λ c. b.max_width ≤ c.max_width) bs × IsSorted bs

All-weaken :
    (m n : ℕ) (bs : List Breakpoint)
    → m ≤ n
    → All (λ c. n ≤ c.max_width) bs
    → All (λ c. m ≤ c.max_width) bs
All-weaken m n [] h a = tt
All-weaken m n (b ∷ bs) h (p, a) = (omega arith, All-weaken m n bs h a)

insert-All :
    (n : ℕ) (b : Breakpoint) (bs : List Breakpoint)
    → n ≤ b.max_width
    → All (λ c. n ≤ c.max_width) bs
    → All (λ c. n ≤ c.max_width) (insert b bs)
unfolding insert
insert-All n b [] h a = (h, tt)
insert-All n b (x ∷ bs) h (p, a) = elim (Bool-cases (leb b.max_width x.max_width)) [
  | inl e ↦ rw e (h, (p, a))
  | inr e ↦ rw e (p, insert-All n b bs h a)
]

insert-IsSorted : (b : Breakpoint) (bs : List Breakpoint) → IsSorted bs → IsSorted (insert b bs)
unfolding insert
insert-IsSorted b [] s = (tt, tt)
insert-IsSorted b (x ∷ bs) (a, s) = elim (Bool-cases (leb b.max_width x.max_width)) [
  | inl e ↦
      let h : b.max_width ≤ x.max_width = ground arith in
      rw e ((h, All-weaken b.max_width x.max_width bs h a), (a, s))
  | inr e ↦ rw e (insert-All x.max_width b bs (ground arith) a, insert-IsSorted b bs s)
]

sort-IsSorted : (bs : List Breakpoint) → IsSorted (sort bs)
unfolding sort
sort-IsSorted [] = tt
sort-IsSorted (b ∷ bs) = insert-IsSorted b (sort bs) (sort-IsSorted bs)

-- Before breakpoints that are no narrower, a breakpoint is the narrowest.
narrower-first :
    (current : ℕ) (b : Breakpoint) (bs : List Breakpoint)
    → All (λ c. b.max_width ≤ c.max_width) bs
    → narrower b (first current bs) ≡ some b
unfolding first
narrower-first current b [] a = refl
narrower-first current b (x ∷ bs) (p, a) = ground (arith, narrower-first current b bs a)

first-insert :
    (current : ℕ) (b : Breakpoint) (bs : List Breakpoint)
    → IsSorted bs
    → first current (insert b bs)
      ≡ (if leb current b.max_width then narrower b (first current bs) else first current bs)
unfolding first insert
first-insert current b [] s = ground arith
first-insert current b (x ∷ bs) (a, s) = elim (Bool-cases (leb b.max_width x.max_width)) [
  | inl e ↦
      let h : b.max_width ≤ x.max_width = ground arith in
      rw e (ground (arith, narrower-first current b bs (All-weaken b.max_width x.max_width bs h a)))
  | inr e ↦ rw e (ground (arith, first-insert current b bs s))
]

first-sort : (current : ℕ) (bs : List Breakpoint) → first current (sort bs) ≡ narrowest current bs
unfolding sort first narrowest
first-sort current [] = refl
first-sort current (b ∷ bs) =
    rw (first-insert current b (sort bs) (sort-IsSorted bs), first-sort current bs) refl

-- The width of a drawer is that of the narrowest of the breakpoints that are at least as wide as
-- the window, of the first where several are equally narrow, and the drawer's own width where there
-- is none.
pub calculate_width-narrowest :
    (current : ℕ) (breakpoints : List Breakpoint) (width : ℕ)
    → calculate_width current breakpoints width
      ≡ get_or (width_of (narrowest current breakpoints)) width
unfolding calculate_width
calculate_width-narrowest current breakpoints width =
    rw (first_fit-first current (sort breakpoints), first-sort current breakpoints) refl
