-- ===== src/Hpack/Table/View.antt =====
-- core/hpack.go: the entries of the ring as a list, and what an eviction does to a list.
use alos_http.Prelude.{
  ℕ, zero, suc, ◌+◌, ◌-◌, ◌≤◌, ◌<◌, ◌≡◌, refl, arith, leb, if◌then◌else◌, true, List, [], ◌∷◌, ◌++◌,
  length, Bool-cases, inl, inr, ap,
}
use alos_http.Hpack.Table.{Entry, Table, dyn_get}

unfoldable pub tabulate : (ℕ → Entry) → ℕ → List Entry
tabulate f zero = []
tabulate f (suc n) = f 0 ∷ tabulate (λ i. f (suc i)) n

unfoldable pub entries : Table → List Entry
entries t = tabulate (dyn_get t) t.len

unfoldable pub total : List Entry → ℕ
total [] = 0
total (e ∷ es) = e.size + total es

-- The newest entries, as many as fit in `room`.
unfoldable pub fitting : ℕ → List Entry → List Entry
fitting room [] = []
fitting room (e ∷ es) =
    let later = fitting (room - e.size) es in if leb e.size room then e ∷ later else []

pub tabulate-ext :
    (n : ℕ) (f g : ℕ → Entry) → ((i : ℕ) → i < n → f i ≡ g i) → tabulate f n ≡ tabulate g n
unfolding tabulate
tabulate-ext zero f g h = refl
tabulate-ext (suc n) f g h =
    rw
      (
        h 0 (omega arith),
        tabulate-ext n (λ i. f (suc i)) (λ i. g (suc i)) (λ i l. h (suc i) (omega arith)),
      )
      refl

pub tabulate-suc : (n : ℕ) (f : ℕ → Entry) → tabulate f (suc n) ≡ tabulate f n ++ (f n ∷ [])
unfolding tabulate
tabulate-suc zero f = refl
tabulate-suc (suc n) f = ap (◌∷◌ (f 0)) (tabulate-suc n (λ i. f (suc i)))

pub total-append : (xs ys : List Entry) → total (xs ++ ys) ≡ total xs + total ys
unfolding total
total-append [] ys = omega arith
total-append (x ∷ xs) ys = omega (arith, total-append xs ys)

pub fitting_all : (room : ℕ) (es : List Entry) → total es ≤ room → fitting room es ≡ es
unfolding fitting total
fitting_all room [] h = refl
fitting_all room (e ∷ es) h =
    let fits : leb e.size room ≡ true = ground arith in
    rw (fits, fitting_all (room - e.size) es (omega arith)) refl

pub fitting-append :
    (room : ℕ) (es : List Entry) (e : Entry)
    → room < total es + e.size
    → fitting room (es ++ (e ∷ [])) ≡ fitting room es
unfolding fitting total
fitting-append room [] e h = ground arith
fitting-append room (x ∷ es) e h = elim (Bool-cases (leb x.size room)) [
  | inl fits ↦ rw fits (ap (◌∷◌ x) (fitting-append (room - x.size) es e (ground arith)))
  | inr over ↦ rw over refl
]

pub total-fitting : (room : ℕ) (es : List Entry) → total (fitting room es) ≤ room
unfolding fitting total
total-fitting room [] = omega arith
total-fitting room (e ∷ es) = ground (arith, total-fitting (room - e.size) es)

pub total-snoc : (xs : List Entry) (e : Entry) → total (xs ++ (e ∷ [])) ≡ total xs + e.size
unfolding total
total-snoc [] e = omega arith
total-snoc (x ∷ xs) e = omega (arith, total-snoc xs e)

pub total-cons : (e : Entry) (es : List Entry) → total (e ∷ es) ≡ e.size + total es
unfolding total
total-cons e es = refl

length-tabulate : (n : ℕ) (f : ℕ → Entry) → length (tabulate f n) ≡ n
unfolding tabulate
length-tabulate zero f = refl
length-tabulate (suc n) f = ap suc (length-tabulate n (λ i. f (suc i)))

pub length-entries : (t : Table) → length (entries t) ≡ t.len
unfolding entries
length-entries t = length-tabulate t.len (dyn_get t)
