-- ===== src/Controller/Events/Stream.antt =====
-- What a peer makes of the state updates.
use stochastic_scheduler_con.Prelude.{
  ℕ, ◌≤◌, ◌<◌, ◌≡◌, refl, sym, ap, ◌∙◌, subst, Bool, true, false, Option, none, some, List, [], ◌∷◌,
  ◌++◌, append_assoc, append-nil, if◌then◌else◌, arith, length, All, Bytes, codes, Bool-cases, inl,
  inr,
}
use stochastic_scheduler_con.Prelude.Outcome.{Outcome, ok}
use stochastic_scheduler_con.BigNum.{BigNum}
use stochastic_scheduler_con.Manifest.{Relation, is_incomplete}
use stochastic_scheduler_con.Controller.Objects.{objects_of}
use stochastic_scheduler_con.Controller.Objects.Split.{IsSeparator, IsBody, object}
use stochastic_scheduler_con.Controller.Objects.Stream.{
  text_of, IsItem, IsSize, objects, handle_texts, objects_of-text_of,
}
use stochastic_scheduler_con.Controller.Events.{result_data, results_data, stopped_data}

ok-injective {ℓ} : {A : Type ℓ} {a b : A} → ok a ≡ ok b → a ≡ b
ok-injective h = cc

module _ {Json : Type 0} (parse : Bytes → Option Json) (serialize : Bytes → Json → Bytes) where
  -- The text of a result is an object, whose braces are balanced.
  pub record IsObjectText (text : Bytes) : Type 0 where
    pub body : Bytes
    pub eq : text ≡ object body
    pub balanced : IsBody body

  -- A relation with a value is parsed and serialized as an object.
  abbrev pub IsSent : Relation → Type 0
  IsSent r =
      is_incomplete r.value ≡ false
      → (jv : Json) × (parse r.value ≡ some jv) × IsObjectText (serialize r.key jv)

  -- The objects that are sent: those of the relations with a value, in order.
  pub sent : List Relation → List Bytes
  sent [] = []
  sent (r ∷ rs) =
      let rest = sent rs in
      if is_incomplete r.value
      then rest
      else elim (parse r.value) [ none ↦ rest | some jv ↦ serialize r.key jv ∷ rest ]

  comma : All IsSeparator (codes ",")
  comma = ((λ e. omega (arith, e), λ e. omega (arith, e), λ e. omega (arith, e)), tt)

  result_none :
      (r : Relation) → is_incomplete r.value ≡ true → result_data parse serialize r ≡ ok []
  unfolding result_data
  result_none r e = rw (e, result_data) refl

  pub result_some :
      (r : Relation) (jv : Json)
      → is_incomplete r.value ≡ false
      → parse r.value ≡ some jv
      → result_data parse serialize r ≡ ok (codes "," ++ serialize r.key jv)
  unfolding result_data
  result_some r jv e f = rw (e, result_data) (rw f refl)

  results_step :
      (text more : Bytes) (r : Relation) (rs : List Relation)
      → result_data parse serialize r ≡ ok more
      → results_data parse serialize text (r ∷ rs) ≡ results_data parse serialize (text ++ more) rs
  unfolding results_data
  results_step text more r rs h = rw (h, results_data) refl

  sent-none :
      (r : Relation) (rs : List Relation) → is_incomplete r.value ≡ true → sent (r ∷ rs) ≡ sent rs
  unfolding sent
  sent-none r rs e = rw (e, sent) refl

  sent-some :
      (r : Relation) (rs : List Relation) (jv : Json)
      → is_incomplete r.value ≡ false
      → parse r.value ≡ some jv
      → sent (r ∷ rs) ≡ serialize r.key jv ∷ sent rs
  unfolding sent
  sent-some r rs jv e f = rw (e, sent) (rw f refl)

  results_lem :
      (text : Bytes) (relations : List Relation)
      → All IsSent relations
      → (items : List (Bytes × Bytes)) × (results_data parse serialize text relations
          ≡ ok (text ++ text_of items))
        × All IsItem items
        × (objects items ≡ sent relations)
        × (length items ≤ length relations)
  results_lem text [] h = (
    [],
    unfold results_data in ap (λ t. ok t) (sym (append-nil text)),
    tt,
    unfold sent in refl,
    omega arith,
  )
  results_lem text (r ∷ rs) h = elim (Bool-cases (is_incomplete r.value)) [
    | inl e ↦
        let (items, a, b, c, l) = results_lem text rs h.1 in
        (
          items,
          results_step text [] r rs (result_none r e)
              ∙ ap (λ t. results_data parse serialize t rs) (append-nil text)
              ∙ a,
          b,
          c ∙ sym (sent-none r rs e),
          omega (arith, l),
        )
    | inr e ↦
        let (jv, f, o) = h.0 e in
        let (items, a, b, c, l) = results_lem (text ++ (codes "," ++ serialize r.key jv)) rs h.1 in
        (
          (codes ",", o.body) ∷ items,
          results_step text (codes "," ++ serialize r.key jv) r rs (result_some r jv e f)
              ∙ a
              ∙ ap (λ t. ok t)
                  (append_assoc text (codes "," ++ serialize r.key jv) (text_of items)
                    ∙ ap (λ s. text ++ (codes "," ++ s ++ text_of items)) o.eq),
          ((comma, o.balanced), b),
          ap (λ s. s ∷ objects items) (sym o.eq)
              ∙ ap (◌∷◌ (serialize r.key jv)) c
              ∙ sym (sent-some r rs jv e f),
          omega (arith, l),
        )
  ]

  stopped_lem :
      (relations : List Relation) (text : Bytes)
      → results_data parse serialize [] relations ≡ ok text
      → stopped_data parse serialize relations ≡ ok (text ++ codes "]")
  unfolding stopped_data
  stopped_lem relations text h = rw (h, stopped_data) refl

  module _ {State : Type 0} (handle : Json → State → State × Outcome Bool)
      (terminate : State → State) (request_is_over : Bool) where
    -- The last chunk for the peers of a stopped context, of fewer than 2 ^ 64 bytes, where every
    -- value that is sent is JSON and every result is serialized as an object whose braces are
    -- balanced, those inside of strings counted too: the peer that reads it, with its length for
    -- the size of the chunk and fuel above the number of actions, does with it what the abstract
    -- loop does with the texts of just the results of the actions that have one, in the order of
    -- the manifest, and then terminates the session; it stops before that where the handling of one
    -- throws or returns, a text is not JSON, or its own request is over.
    pub objects_of-stopped_data :
        (fuel : ℕ) (size : BigNum) (relations : List Relation) (text : Bytes) (s : State)
        → All IsSent relations
        → stopped_data parse serialize relations ≡ ok text
        → IsSize size (length text)
        → length relations < fuel
        → objects_of parse handle terminate request_is_over fuel size text 0 s
          ≡ handle_texts parse handle terminate request_is_over (sent relations) true s
    objects_of-stopped_data fuel size relations text s h e z l =
        let (items, a, b, c, k) = results_lem [] relations h in
        let same : text ≡ text_of items ++ codes "]" =
          ok-injective (sym e ∙ stopped_lem relations (text_of items) a) in
        ap (λ t. objects_of parse handle terminate request_is_over fuel size t 0 s) same
        ∙ objects_of-text_of parse handle terminate request_is_over fuel size items true s
            (subst (λ t. IsSize size (length t)) same z) b (omega (arith, l, k))
        ∙ ap (λ os. handle_texts parse handle terminate request_is_over os true s) c
