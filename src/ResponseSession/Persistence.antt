-- ===== src/ResponseSession/Persistence.antt =====
-- state/session.py: what the store holds after a response stream.
use mathlib.Core.Path.{subst}
use mathlib.Core.Bool.{false≢true}
use ex_qserve.Store.{purge_expired}
use ex_qserve.Store.Retention.{Retained, put_stored}
use ex_qserve.Base.{
  Option, ◌||◌, ℕ, ◌≡◌, refl, Bool, true, false, List, [], ◌∷◌, ◌++◌, append_assoc, append-nil,
  if_elim, ap, String, ◌∙◌, sym,
}
use ex_qserve.Core.{
  CompletionReason, GenerationEvent, generation_completed, text_completed, reasoning_completed,
  tool_call_completed,
}
use ex_qserve.Store.{Store, Config, ResponseStoreDisposition, stored}
use ex_qserve.Store.Record.{PyValue, ResponseRecord}
use ex_qserve.Store.Methods.{put}
use ex_qserve.Store.Put.{IsValid}
use ex_qserve.ResponseSession.{
  new_session, Setup, StatefulSession, reasoning_item, assistant_message, tool_call_item, answer_of,
  next, Reading, complete_stored, read,
}

-- The items of the completed parts, in the order of their events.
abbrev pub outputs_of : List (GenerationEvent × ℕ) → List PyValue
outputs_of [] = []
outputs_of ((reasoning_completed r text, now) ∷ es) = reasoning_item text ∷ outputs_of es
outputs_of ((text_completed r text, now) ∷ es) = assistant_message text ∷ outputs_of es
outputs_of ((tool_call_completed r call, now) ∷ es) = tool_call_item call ∷ outputs_of es
outputs_of ((e, now) ∷ es) = outputs_of es

abbrev pub is_completion : GenerationEvent → Bool
is_completion (generation_completed r reason usage stop) = true
is_completion _ = false

abbrev pub has_completion : List (GenerationEvent × ℕ) → Bool
has_completion [] = false
has_completion ((e, now) ∷ es) = is_completion e || has_completion es

abbrev pub events_of : List (GenerationEvent × ℕ) → List GenerationEvent
events_of [] = []
events_of ((e, now) ∷ es) = e ∷ events_of es

-- The record that a completed response is to have.
abbrev pub completed_record : Setup → List PyValue → ResponseRecord
completed_record setup outputs = record {
  response_id = setup.response_id;
  model = setup.model;
  parent_response_id = setup.parent_response_id;
  delta_items = setup.current_input ++ outputs;
}

module _ (c : Config) (setup : Setup) where
  -- Events before the completion leave the store, pass as they are and add their items.
  read_before :
      (es : List (GenerationEvent × ℕ)) (t : StatefulSession) (s : Store)
      → has_completion es ≡ false
      → let q = read c setup es t s in
        (q.0.outputs ≡ t.outputs ++ outputs_of es) × (q.1 ≡ s) × (q.2 ≡ events_of es)
  unfolding read next
  read_before [] t s h = (sym (append-nil t.outputs), refl, refl)
  read_before ((generation_completed r reason usage stop, now) ∷ es) t s h = absurd cc
  read_before ((reasoning_completed r text, now) ∷ es) t s h =
      let n = next c setup (reasoning_completed r text) now t s in
      let k = read_before es n.session s h in
      (
        k.0 ∙ append_assoc t.outputs (reasoning_item text ∷ []) (outputs_of es),
        k.1,
        ap (λ l. reasoning_completed r text ∷ l) k.2,
      )
  read_before ((text_completed r text, now) ∷ es) t s h =
      let n = next c setup (text_completed r text) now t s in
      let k = read_before es n.session s h in
      (
        k.0 ∙ append_assoc t.outputs (assistant_message text ∷ []) (outputs_of es),
        k.1,
        ap (λ l. text_completed r text ∷ l) k.2,
      )
  read_before ((tool_call_completed r call, now) ∷ es) t s h =
      let n = next c setup (tool_call_completed r call) now t s in
      let k = read_before es n.session s h in
      (
        k.0 ∙ append_assoc t.outputs (tool_call_item call ∷ []) (outputs_of es),
        k.1,
        ap (λ l. tool_call_completed r call ∷ l) k.2,
      )
  read_before ((e, now) ∷ es) t s h =
      let n = next c setup e now t s in
      let k = read_before es n.session s h in (k.0, k.1, ap (λ l. e ∷ l) k.2)

  read-append :
      (es fs : List (GenerationEvent × ℕ)) (t : StatefulSession) (s : Store)
      → let q = read c setup es t s in
        let p = read c setup fs q.0 q.1 in read c setup (es ++ fs) t s ≡ (p.0, p.1, q.2 ++ p.2)
  unfolding read
  read-append [] fs t s = refl
  read-append ((e, now) ∷ es) fs t s =
      let n = next c setup e now t s in
      ap (λ (q : StatefulSession × Store × List GenerationEvent). (q.0, q.1, n.event ∷ q.2))
        (read-append es fs n.session n.store)

  -- A stream without a completion, whatever else it holds, leaves the store as it was.
  pub store-no_completion :
      (es : List (GenerationEvent × ℕ)) (t : StatefulSession) (s : Store)
      → has_completion es ≡ false
      → (read c setup es t s).1 ≡ s
  store-no_completion es t s h = (read_before es t s h).1

  complete_read :
      (e : GenerationEvent) (t : StatefulSession) (p : Store × ResponseStoreDisposition)
      → let n = complete_stored c setup e t p in
        (n.store ≡ p.0) × (n.event ≡ answer_of c setup e p.1) × (n.session.terminal ≡ true)
  unfolding complete_stored
  complete_read e t p = (refl, refl, refl)

  abbrev Completed :
      GenerationEvent
      → ℕ
      → List PyValue
      → Store
      → StatefulSession × Store × List GenerationEvent
      → List GenerationEvent
      → Type 0
  Completed e now os s q before =
      let p = put c (completed_record setup os) now s in
      (q.1 ≡ p.0) × (q.2 ≡ before ++ answer_of c setup e p.1 ∷ []) × (q.0.terminal ≡ true)

  last_read :
      (r : String) (reason : CompletionReason) (usage : Option ℕ) (stop : Option String) (now : ℕ)
      (t : StatefulSession) (s : Store)
      → setup.store_response ≡ true
      → let e = generation_completed r reason usage stop in
        Completed e now t.outputs s (read c setup ((e, now) ∷ []) t s) []
  unfolding read next
  last_read r reason usage stop now t s k =
      let e = generation_completed r reason usage stop in
      let p = put c (completed_record setup t.outputs) now s in
      let z = complete_read e t p in
      if_elim
        (λ (n : Reading).
          (n.store ≡ p.0)
          × (n.event ∷ [] ≡ answer_of c setup e p.1 ∷ [])
          × (n.session.terminal ≡ true))
        setup.store_response (λ x. (z.0, ap (λ v. v ∷ []) z.1, z.2))
        (λ x. absurd (false≢true (sym x ∙ k)))

  moved :
      (e : GenerationEvent) (now : ℕ) (os ps : List PyValue) (s v : Store)
      (q q2 : StatefulSession × Store × List GenerationEvent) (before : List GenerationEvent)
      → os ≡ ps
      → v ≡ s
      → q2 ≡ (q.0, q.1, before ++ q.2)
      → Completed e now os v q []
      → Completed e now ps s q2 before
  moved e now os ps s v q q2 before a b d h =
      subst (λ x. Completed e now ps s x before) (sym d)
        (subst (λ x. Completed e now ps x (q.0, q.1, before ++ q.2) before) b
          (subst (λ x. Completed e now x v (q.0, q.1, before ++ q.2) before) a
            (h.0, ap (λ l. before ++ l) h.1, h.2)))

  -- A response that is to be stored, and whose stream completes: the store is the one that `put` gives
  -- for the record of the request's items followed by the items of the parts that the stream completed,
  -- in their order; the caller gets the events as they are, and at the end the completion if the record
  -- was stored and a failure with the refusal if it was not; and the session is over.
  pub completed_persists :
      (es : List (GenerationEvent × ℕ)) (r : String) (reason : CompletionReason) (usage : Option ℕ)
      (stop : Option String) (now : ℕ) (s : Store)
      → has_completion es ≡ false
      → setup.store_response ≡ true
      → let e = generation_completed r reason usage stop in
        let q = read c setup (es ++ (e, now) ∷ []) new_session s in
        let p = put c (completed_record setup (outputs_of es)) now s in
        (q.1 ≡ p.0) × (q.2 ≡ events_of es ++ answer_of c setup e p.1 ∷ []) × (q.0.terminal ≡ true)
  completed_persists es r reason usage stop now s h k =
      let e = generation_completed r reason usage stop in
      let a = read_before es new_session s h in
      let u = read c setup es new_session s in
      moved e now u.0.outputs (outputs_of es) s u.1 (read c setup ((e, now) ∷ []) u.0 u.1)
        (read c setup (es ++ (e, now) ∷ []) new_session s) (events_of es) a.0 a.1
        (read-append es ((e, now) ∷ []) new_session s
          ∙ ap
              (λ (l : List GenerationEvent). (
                (read c setup ((e, now) ∷ []) u.0 u.1).0,
                (read c setup ((e, now) ∷ []) u.0 u.1).1,
                l ++ (read c setup ((e, now) ∷ []) u.0 u.1).2,
              ))
              a.2)
        (last_read r reason usage stop now u.0 u.1 k)

  -- When the store takes the record of a completed stream, it holds the record and every ancestor of
  -- it, and the caller gets the completion.
  pub completed-Retained :
      (es : List (GenerationEvent × ℕ)) (r : String) (reason : CompletionReason) (usage : Option ℕ)
      (stop : Option String) (now : ℕ) (s : Store)
      → has_completion es ≡ false
      → setup.store_response ≡ true
      → IsValid c s
      → (put c (completed_record setup (outputs_of es)) now s).1 ≡ stored
      → let e = generation_completed r reason usage stop in
        let q = read c setup (es ++ (e, now) ∷ []) new_session s in
        Retained c (completed_record setup (outputs_of es)) now (purge_expired now s) q.1
        × (q.2 ≡ events_of es ++ e ∷ [])
  unfolding put
  completed-Retained es r reason usage stop now s h k v d =
      let e = generation_completed r reason usage stop in
      let x = completed_record setup (outputs_of es) in
      let z = completed_persists es r reason usage stop now s h k in
      (
        subst (λ y. Retained c x now (purge_expired now s) y) (sym z.0) (put_stored c x now s v d),
        z.1 ∙ ap (λ y. events_of es ++ answer_of c setup e y ∷ []) d,
      )
