-- ===== src/Io/Queue.antt =====
-- The queue as a step relation: the one thread that runs the callbacks, and the controller.
use stochastic_scheduler_con.Prelude.{
  ◌+◌, ◌≤◌, ◌≡◌, refl, sym, ap, ◌∙◌, false, Option, none, some, List, [], ◌∷◌, ◌++◌, append_assoc,
  append-nil, arith, length, length-append,
}
use stochastic_scheduler_con.Io.{Message, max_queue_length, mq_is_full, mq_pull, mq_push}

-- The queue; the message of a callback that has waited for room and has not pushed yet; what the
-- callbacks were given, and what the controller has pulled, each in order.
pub record State : Type 0 where
  pub mq : List Message
  pub admitted : Option Message
  pub arrived : List Message
  pub pulled : List Message

abbrev pub start : State
start = record { mq = []; admitted = none; arrived = []; pulled = [] }

abbrev pub in_flight : Option Message → List Message
in_flight none = []
in_flight (some msg) = msg ∷ []

-- A callback waits until the queue is not full, and then pushes; callbacks run one at a time, on
-- the thread of the io_context. The controller pulls at any time.
pub data Step : State → State → Type 0 where
  admits :
      (s : State) (msg : Message)
      → s.admitted ≡ none
      → mq_is_full s.mq ≡ false
      → Step s (record s { admitted = some msg; arrived = s.arrived ++ msg ∷ [] })
  pushes :
      (s : State) (msg : Message)
      → s.admitted ≡ some msg
      → Step s (record s { mq = mq_push s.mq msg; admitted = none })
  pulls :
      (s : State) (msg : Message)
      → (mq_pull s.mq).0 ≡ some msg
      → Step s (record s { mq = (mq_pull s.mq).1; pulled = s.pulled ++ msg ∷ [] })

pub data Reach : State → Type 0 where
  begins : Reach start
  steps : {s t : State} → Reach s → Step s t → Reach t

-- Nothing is lost, and the queue has room for what has been admitted.
pub record IsSound (s : State) : Type 0 where
  pub kept : s.arrived ≡ s.pulled ++ (s.mq ++ in_flight s.admitted)
  pub room : length s.mq + length (in_flight s.admitted) ≤ max_queue_length

pull_lem :
    (mq : List Message) (msg : Message)
    → (mq_pull mq).0 ≡ some msg
    → (rest : List Message) × (mq ≡ msg ∷ rest) × ((mq_pull mq).1 ≡ rest)
unfolding mq_pull
pull_lem [] msg h = absurd (cc h)
pull_lem (head ∷ mq) msg h = (mq, ap (λ x. x ∷ mq) (cc h), refl)

Step-IsSound : {s t : State} → Step s t → IsSound s → IsSound t
unfolding mq_is_full mq_push
Step-IsSound (admits s msg a b) v = record {
  kept =
      ap (λ xs. xs ++ msg ∷ []) (v.kept ∙ ap (λ o. s.pulled ++ (s.mq ++ in_flight o)) a)
      ∙ append_assoc s.pulled (s.mq ++ []) (msg ∷ [])
      ∙ ap (λ xs. s.pulled ++ (xs ++ msg ∷ [])) (append-nil s.mq);
  room = ground (arith, b);
}
Step-IsSound (pushes s msg a) v = record {
  kept =
      v.kept
      ∙ ap (λ o. s.pulled ++ (s.mq ++ in_flight o)) a
      ∙ ap (◌++◌ s.pulled) (sym (append-nil (s.mq ++ msg ∷ [])));
  room = omega (arith, v.room, length-append s.mq (msg ∷ []), ap (λ o. length (in_flight o)) a);
}
Step-IsSound (pulls s msg a) v =
    let (rest, e, f) = pull_lem s.mq msg a in
    record {
      kept =
          v.kept
          ∙ ap (λ mq. s.pulled ++ (mq ++ in_flight s.admitted)) e
          ∙ sym (append_assoc s.pulled (msg ∷ []) (rest ++ in_flight s.admitted))
          ∙ ap (λ mq. (s.pulled ++ msg ∷ []) ++ (mq ++ in_flight s.admitted)) (sym f);
      room = omega (arith, v.room, ap length e, ap length f);
    }

-- In every state that is reached, what the controller has pulled, what is queued and what a
-- callback still holds are together what the callbacks were given, in that order; and the queue
-- never holds more than 1024 messages.
pub Reach-IsSound : {s : State} → Reach s → IsSound s
Reach-IsSound begins = record { kept = refl; room = omega arith }
Reach-IsSound (steps r h) = Step-IsSound h (Reach-IsSound r)
