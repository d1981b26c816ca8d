-- ===== src/DeepCopy/Separate.antt =====
-- DeepCopy of every struct gives a deep copy, and what is written later to one of the two does not
-- show in the other.
use poll_operator.Base.{
  ℕ, ◌≤◌, ◌≡◌, arith, Option, some, List, [], ◌∷◌, keep, not, ltb, ℕ_discrete, Bool-cases, inl, inr,
  ◌<◌, nat_eq,
}
use poll_operator.DeepCopy.Layout.{Ptr, Cell}
use poll_operator.DeepCopy.Kinds.{
  choices, free_texts, option_results, polls, answers, poll_lists, questions, references, responses,
  response_lists, response_specs, response_statuses, specs, statuses, question_results,
}
use poll_operator.DeepCopy.Heap.{Heap}
use poll_operator.DeepCopy.Copying.{update, pure, run-bind}
use mathlib.Core.Option
use poll_operator.DeepCopy.Copies.{
  RuntimeObject, copy_object, Machinery, free_text_into, option_result_into, reference_into,
}
use poll_operator.DeepCopy.Structs.{
  Struct, Value, read_struct, deep_copy, choice_question, free_text_question, option_result, poll,
  poll_answer, poll_list, poll_question, poll_reference, poll_response, poll_response_list,
  poll_response_spec, poll_response_status, poll_spec, poll_status, question_result,
}
use poll_operator.DeepCopy.Growth.{everything, IsFresh, in_use, Grows-refl}
use poll_operator.DeepCopy.Lawful.{
  IsDeepCopy, Within-everything, assign-IsDeepCopy, copy_ptr-IsDeepCopy,
}
use poll_operator.DeepCopy.Polls.{
  IsLawful, choice-IsDeepCopy, question-IsDeepCopy, result-IsDeepCopy, spec-IsDeepCopy,
  status-IsDeepCopy, poll-IsDeepCopy, poll_list-IsDeepCopy,
}
use poll_operator.DeepCopy.Responses.{
  answer-IsDeepCopy, response_spec-IsDeepCopy, response_status-IsDeepCopy, response-IsDeepCopy,
  response_list-IsDeepCopy,
}

module _ (k : Machinery) (l : IsLawful k) where
  deep_copy-IsDeepCopy : (t : Struct) → IsDeepCopy everything (read_struct t) (deep_copy k t)
  unfolding read_struct deep_copy free_text_into option_result_into reference_into
  deep_copy-IsDeepCopy choice_question =
      copy_ptr-IsDeepCopy (choice-IsDeepCopy everything) choices (Within-everything choices)
  deep_copy-IsDeepCopy free_text_question =
      copy_ptr-IsDeepCopy (assign-IsDeepCopy _ everything) free_texts (Within-everything free_texts)
  deep_copy-IsDeepCopy option_result =
      copy_ptr-IsDeepCopy (assign-IsDeepCopy _ everything) option_results
        (Within-everything option_results)
  deep_copy-IsDeepCopy poll =
      copy_ptr-IsDeepCopy (poll-IsDeepCopy k l everything) polls (Within-everything polls)
  deep_copy-IsDeepCopy poll_answer =
      copy_ptr-IsDeepCopy (answer-IsDeepCopy everything) answers (Within-everything answers)
  deep_copy-IsDeepCopy poll_list =
      copy_ptr-IsDeepCopy (poll_list-IsDeepCopy k l) poll_lists (Within-everything poll_lists)
  deep_copy-IsDeepCopy poll_question =
      copy_ptr-IsDeepCopy (question-IsDeepCopy everything) questions (Within-everything questions)
  deep_copy-IsDeepCopy poll_reference =
      copy_ptr-IsDeepCopy (assign-IsDeepCopy _ everything) references (Within-everything references)
  deep_copy-IsDeepCopy poll_response =
      copy_ptr-IsDeepCopy (response-IsDeepCopy k l everything) responses
        (Within-everything responses)
  deep_copy-IsDeepCopy poll_response_list =
      copy_ptr-IsDeepCopy (response_list-IsDeepCopy k l) response_lists
        (Within-everything response_lists)
  deep_copy-IsDeepCopy poll_response_spec =
      copy_ptr-IsDeepCopy (response_spec-IsDeepCopy k l everything) response_specs
        (Within-everything response_specs)
  deep_copy-IsDeepCopy poll_response_status =
      copy_ptr-IsDeepCopy (response_status-IsDeepCopy k l everything) response_statuses
        (Within-everything response_statuses)
  deep_copy-IsDeepCopy poll_spec =
      copy_ptr-IsDeepCopy (spec-IsDeepCopy k l everything) specs (Within-everything specs)
  deep_copy-IsDeepCopy poll_status =
      copy_ptr-IsDeepCopy (status-IsDeepCopy k l everything) statuses (Within-everything statuses)
  deep_copy-IsDeepCopy question_result =
      copy_ptr-IsDeepCopy (result-IsDeepCopy everything) question_results
        (Within-everything question_results)

-- A later write of a cell at an address
pub record Write : Type 0 where
  pub address : ℕ
  pub new_cell : Cell

abbrev pub write_all : List Write → Heap → Heap
write_all [] h = h
write_all (w ∷ ws) h = write_all ws (record h { cell = update h.cell w.address w.new_cell })

-- Those at addresses that were in use when the heap was `h`, and the others
abbrev pub to_old : Heap → List Write → List Write
to_old h = keep (λ w. ltb w.address h.next)

abbrev pub to_new : Heap → List Write → List Write
to_new h = keep (λ w. not (ltb w.address h.next))

Keeps-to_old :
    (h g : Heap) (ws : List Write) (a : ℕ) (c : Cell)
    → h.next ≤ a
    → g.cell a ≡ some c
    → (write_all (to_old h ws) g).cell a ≡ some c
unfolding ℕ_discrete
Keeps-to_old h g [] a c le at = at
Keeps-to_old h g (w ∷ ws) a c le at =
    let written = record g { cell = update g.cell w.address w.new_cell } in
    let rest = Keeps-to_old h g ws a c le at in
    let other = λ (e : written.cell a ≡ some c). Keeps-to_old h written ws a c le e in
    elim (Bool-cases (ltb w.address h.next)) [
      | inl old ↦ rw old (other (ground arith))
      | inr e ↦ rw e rest
    ]

Keeps-to_new :
    (h g : Heap) (ws : List Write) (a : ℕ) (c : Cell)
    → a < h.next
    → g.cell a ≡ some c
    → (write_all (to_new h ws) g).cell a ≡ some c
unfolding ℕ_discrete
Keeps-to_new h g [] a c lt at = at
Keeps-to_new h g (w ∷ ws) a c lt at =
    let written = record g { cell = update g.cell w.address w.new_cell } in
    let rest = Keeps-to_new h g ws a c lt at in
    let other = λ (e : written.cell a ≡ some c). Keeps-to_new h written ws a c lt e in
    elim (Bool-cases (ltb w.address h.next)) [
      | inl old ↦ rw old rest
      | inr e ↦ rw e (other (ground arith))
    ]

module _ (k : Machinery) (l : IsLawful k) where
  -- From a heap where the addresses from `next` on are free, DeepCopy of any of the structs returns
  -- where its receiver can be read, also where it is nil. The copy reads as the receiver did,
  -- whatever is written later to the addresses that were in use before; and the receiver reads as
  -- it did, whatever is written to all other addresses. DeepCopyObject gives the same copy, as the
  -- type `of`, and nil where the copy is nil. Kubernetes' own types have deep copies.
  pub deep_copy-separate :
      (t : Struct) (h : Heap) (p : Option Ptr) (v : Option (Value t)) (ws : List Write)
      (of : Ptr → RuntimeObject)
      → IsFresh h
      → read_struct t p h ≡ some v
      → (q : Option Ptr) × (g : Heap) × (deep_copy k t p h ≡ some (q, g))
        × (copy_object of (deep_copy k t) p h ≡ some (Option.map of q, g))
        × (read_struct t q (write_all (to_old h ws) g) ≡ some v)
        × (read_struct t p (write_all (to_new h ws) g) ≡ some v)
  unfolding copy_object pure
  deep_copy-separate t h p v ws of fresh e =
      let d = deep_copy-IsDeepCopy k l t in
      let made = (d.copies h p).makes h (Grows-refl h fresh) v e in
      (
        made.value,
        made.after,
        made.runs,
        run-bind (deep_copy k t p) _ made.value h made.after made.runs,
        made.holds _ (λ a c held le at. Keeps-to_old h made.after ws a c le at),
        (d.stays p h _ (λ a c held le at.
              Keeps-to_new h made.after ws a c (in_use h a c fresh at)
                (made.grows.keeps a c held le at))).at
            v e,
      )
