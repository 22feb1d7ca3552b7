-- ===== src/Rbac/Create/Labels.antt =====
-- The labels of the switch of CreateRole in pkg/rbac/rbacManager.go.
use sybline.Base.{
  ℕ, ◌+◌, ◌%◌, ◌<◌, ◌≡◌, ap, sym, subst, ◌∙◌, ◌≢◌, inl, inr, String, none, some, [], ◌∷◌, ◌==◌,
  str_eq, eq_iff, arith, Bool-cases,
}
use sybline.Base.Dict
use sybline.Base.Dict.{Dict}
use sybline.Rbac.Role.{
  get_messages_action, submit_message_action, submit_batch_action, ack_action, batch_ack_action,
}
use sybline.Rbac.Create.{Case, entities, admin, cases}

-- A key at most once.
abbrev pub IsMap : {V : Type 0} → Dict V → Type 0
IsMap [] = Unit
IsMap ((k, v) ∷ m) = (Dict.get m k ≡ none) × IsMap m

-- Two cases write to the same field or the same pair of constants exactly if their numbers agree.
unfoldable pub number : Case → ℕ
number (entities get_messages_action) = 22
number (entities submit_message_action) = 23
number (entities submit_batch_action) = 24
number (entities ack_action) = 25
number (entities batch_ack_action) = 26
number (admin allow deny) = allow

abbrev Fresh : ℕ → Dict Case → Type 0
Fresh n [] = Unit
Fresh n ((k, c) ∷ t) = (number c ≢ n) × Fresh n t

abbrev Distinct : Dict Case → Type 0
Distinct [] = Unit
Distinct ((k, c) ∷ t) = Fresh (number c) t × Distinct t

abbrev pub IsCoded : Case → Type 0
IsCoded (entities a) = Unit
IsCoded (admin allow deny) = (deny ≡ allow + 1) × (allow % 2 ≡ 0) × (allow < 22)

abbrev pub AllCases : (Case → Type 0) → Dict Case → Type 0
AllCases P [] = Unit
AllCases P ((k, c) ∷ t) = P c × AllCases P t

get-Fresh :
    (t : Dict Case) (n : ℕ) (k : String) (c : Case)
    → Fresh n t
    → Dict.get t k ≡ some c
    → number c ≢ n
unfolding Dict.get
get-Fresh [] n k c f h = absurd (cc)
get-Fresh ((j, d) ∷ t) n k c (new, f) h = elim (Bool-cases (str_eq j k)) [
  | inl e ↦ subst (λ x. number x ≢ n) (ground arith) new
  | inr e ↦ get-Fresh t n k c f (ground arith)
]

get-Distinct :
    (t : Dict Case) (k l : String) (c d : Case)
    → Distinct t
    → Dict.get t k ≡ some c
    → Dict.get t l ≡ some d
    → number c ≡ number d
    → k ≡ l
unfolding Dict.get
get-Distinct [] k l c d f h g e = absurd (cc)
get-Distinct ((j, b) ∷ t) k l c d (new, f) h g e = ground (
  arith,
  eq_iff j k,
  eq_iff j l,
  get-Fresh t (number b) k c new,
  get-Fresh t (number b) l d new,
  get-Distinct t k l c d f,
)

pub get-AllCases :
    (P : Case → Type 0) (t : Dict Case) (k : String) (c : Case)
    → AllCases P t
    → Dict.get t k ≡ some c
    → P c
unfolding Dict.get
get-AllCases P [] k c f h = absurd (cc)
get-AllCases P ((j, d) ∷ t) k c (f, fs) h = elim (Bool-cases (str_eq j k)) [
  | inl e ↦ subst P (ground arith) f
  | inr e ↦ get-AllCases P t k c fs (ground arith)
]

-- The labels of the switch are distinct in what they write.
pub label_unique :
    (k l : String) (c d : Case)
    → Dict.get cases k ≡ some c
    → Dict.get cases l ≡ some d
    → number c ≡ number d
    → k ≡ l
unfolding number
label_unique k l c d = get-Distinct cases k l c d (omega arith)

pub case-IsCoded : (k : String) (c : Case) → Dict.get cases k ≡ some c → IsCoded c
case-IsCoded k c = get-AllCases IsCoded cases k c (omega arith)

pub number-label :
    (k l : String) (c d : Case)
    → Dict.get cases k ≡ some c
    → Dict.get cases l ≡ some d
    → (number c == number d) ≡ str_eq k l
number-label k l c d h g = elim (Bool-cases (str_eq k l)) [
  | inl e ↦
      let same : some c ≡ some d = sym h ∙ ap (Dict.get cases) ((eq_iff k l).0 e) ∙ g in
      rw e (ground (arith, same))
  | inr e ↦ ground (arith, eq_iff k l, label_unique k l c d)
]
