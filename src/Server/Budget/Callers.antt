-- ===== src/Server/Budget/Callers.antt =====
-- core/server.go: what the callers of the body budget have together.
use alos_http.Prelude.{
  ℕ, zero, suc, ◌+◌, ◌≤◌, ◌≡◌, refl, List, [], ◌∷◌, All, Option, some, arith, ap, get_elem?, subst,
}
use alos_http.Server.Budget.{BudgetCaller}
use alos_http.Server.Budget.System.{put_caller}
use alos_http.Server.Budget.Acts.{unsettled, releasing, Knows}

-- What the callers of a list have together, of something that each has.
unfoldable pub together : (BudgetCaller → ℕ) → List (Option ℕ × BudgetCaller) → ℕ
together f [] = 0
together f (c ∷ cs) = f c.1 + together f cs

unfoldable pub drop_caller : ℕ → List (Option ℕ × BudgetCaller) → List (Option ℕ × BudgetCaller)
drop_caller i [] = []
drop_caller zero (c ∷ cs) = cs
drop_caller (suc i) (c ∷ cs) = c ∷ drop_caller i cs

pub together-drop_caller :
    (f : BudgetCaller → ℕ) (i : ℕ) (c : Option ℕ × BudgetCaller)
    (cs : List (Option ℕ × BudgetCaller))
    → get_elem? cs i ≡ some c
    → together f cs ≡ f c.1 + together f (drop_caller i cs)
unfolding together drop_caller
together-drop_caller f i c [] e = cc
together-drop_caller f zero c (d ∷ cs) e =
    let same : d ≡ c = cc in omega (arith, ap (λ x. f x.1) same)
together-drop_caller f (suc i) c (d ∷ cs) e = omega (arith, together-drop_caller f i c cs e)

pub together-put_caller :
    (f : BudgetCaller → ℕ) (i : ℕ) (c c' : Option ℕ × BudgetCaller)
    (cs : List (Option ℕ × BudgetCaller))
    → get_elem? cs i ≡ some c
    → together f (put_caller i c' cs) ≡ f c'.1 + together f (drop_caller i cs)
unfolding together drop_caller put_caller
together-put_caller f i c c' [] e = cc
together-put_caller f zero c c' (d ∷ cs) e = refl
together-put_caller f (suc i) c c' (d ∷ cs) e = omega (arith, together-put_caller f i c c' cs e)

releasing-unsettled : (k : BudgetCaller) → releasing k ≤ unsettled k
releasing-unsettled k = ground arith

pub together_le :
    (cs : List (Option ℕ × BudgetCaller)) → together releasing cs ≤ together unsettled cs
unfolding together
together_le [] = omega arith
together_le (c ∷ cs) = omega (arith, releasing-unsettled c.1, together_le cs)

abbrev pub AllKnow : ℕ → List (Option ℕ × BudgetCaller) → Type 0
AllKnow limit cs = All (λ c. Knows limit c.1) cs

pub AllKnow-put_caller :
    (limit i : ℕ) (c : Option ℕ × BudgetCaller) (cs : List (Option ℕ × BudgetCaller))
    → AllKnow limit cs
    → Knows limit c.1
    → AllKnow limit (put_caller i c cs)
unfolding put_caller
AllKnow-put_caller limit i c [] h k = tt
AllKnow-put_caller limit zero c (d ∷ cs) h k = (k, h.1)
AllKnow-put_caller limit (suc i) c (d ∷ cs) h k = (h.0, AllKnow-put_caller limit i c cs h.1 k)

pub AllKnow-get :
    (limit i : ℕ) (c : Option ℕ × BudgetCaller) (cs : List (Option ℕ × BudgetCaller))
    → AllKnow limit cs
    → get_elem? cs i ≡ some c
    → Knows limit c.1
AllKnow-get limit i c [] h e = cc
AllKnow-get limit zero c (d ∷ cs) h e =
    let same : d ≡ c = cc in subst (λ x. Knows limit x.1) same h.0
AllKnow-get limit (suc i) c (d ∷ cs) h e = AllKnow-get limit i c cs h.1 e
