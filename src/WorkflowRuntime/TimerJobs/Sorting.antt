-- ===== src/WorkflowRuntime/TimerJobs/Sorting.antt =====
-- Sorted payloads, and the least of their times.
use mathlib.Core.List.Memᴰ
use mathlib.Core.List.Memᴰ.{Memᴰ}
use m8flow_bpmn_core.Base.{◌≤◌, List, [], ◌∷◌, ◌≡◌, ◌⊎◌, inl, inr, refl, arith, leb, Bool-cases}
use m8flow_bpmn_core.WorkflowRuntime.TimerJobs.{
  TimerPayload, payload_before, insert_payload, sort_payloads, least_run_at,
}

insert-mem :
    (x y : TimerPayload) (ys : List TimerPayload)
    → (y ≡ x) ⊎ Memᴰ y ys
    → Memᴰ y (insert_payload x ys)
unfolding insert_payload
insert-mem x y [] (inl e) = Memᴰ.head e
insert-mem x y [] (inr m) = Memᴰ.tail m
insert-mem x y (z ∷ ys) h = elim (Bool-cases (payload_before z x)) [
  | inl b ↦ rw b (elim h [
    | inl e ↦ Memᴰ.tail (insert-mem x y ys (inl e))
    | inr m ↦ elim (Memᴰ.cases_cons m) [
      | inl e ↦ Memᴰ.head e
      | inr later ↦ Memᴰ.tail (insert-mem x y ys (inr later))
    ]
  ])
  | inr b ↦ rw b (elim h [ inl e ↦ Memᴰ.head e | inr m ↦ Memᴰ.tail m ])
]

mem_of_insert :
    (x y : TimerPayload) (ys : List TimerPayload)
    → Memᴰ y (insert_payload x ys)
    → (y ≡ x) ⊎ Memᴰ y ys
unfolding insert_payload
mem_of_insert x y [] m = Memᴰ.cases_cons m
mem_of_insert x y (z ∷ ys) m = elim (Bool-cases (payload_before z x)) [
  | inl b ↦ elim (Memᴰ.cases_cons (rw (b, insert_payload) at m)) [
    | inl e ↦ inr (Memᴰ.head e)
    | inr later ↦ elim (mem_of_insert x y ys later) [
      | inl e ↦ inl e
      | inr found ↦ inr (Memᴰ.tail found)
    ]
  ]
  | inr b ↦ Memᴰ.cases_cons (rw (b, insert_payload) at m)
]

pub sort-mem : (y : TimerPayload) (xs : List TimerPayload) → Memᴰ y xs → Memᴰ y (sort_payloads xs)
unfolding sort_payloads
sort-mem y [] m = m
sort-mem y (x ∷ xs) m = elim (Memᴰ.cases_cons m) [
  | inl e ↦ insert-mem x y _ (inl e)
  | inr later ↦ insert-mem x y _ (inr (sort-mem y xs later))
]

pub mem_of_sort :
    (y : TimerPayload) (xs : List TimerPayload) → Memᴰ y (sort_payloads xs) → Memᴰ y xs
unfolding sort_payloads
mem_of_sort y [] m = m
mem_of_sort y (x ∷ xs) m = elim (mem_of_insert x y _ m) [
  | inl e ↦ Memᴰ.head e
  | inr later ↦ Memᴰ.tail (mem_of_sort y xs later)
]

pub least-le :
    (p q : TimerPayload) (ps : List TimerPayload)
    → Memᴰ q (p ∷ ps)
    → least_run_at p ps ≤ q.run_at_in_seconds
unfolding least_run_at
least-le p q [] m = elim (Memᴰ.cases_cons m) [
  | inl e ↦ rw e (omega arith)
  | inr later ↦ absurd (Memᴰ.not-nil later)
]
least-le p q (r ∷ ps) m = elim (Memᴰ.cases_cons m) [
  | inl e ↦ rw e (ground arith)
  | inr later ↦ ground (arith, least-le r q ps later)
]

pub least-attained :
    (p : TimerPayload) (ps : List TimerPayload)
    → (q : TimerPayload) × Memᴰ q (p ∷ ps) × (least_run_at p ps ≡ q.run_at_in_seconds)
unfolding least_run_at
least-attained p [] = (p, Memᴰ.head refl, refl)
least-attained p (r ∷ ps) = elim (Bool-cases (leb p.run_at_in_seconds (least_run_at r ps))) [
  | inl e ↦ (p, Memᴰ.head refl, ground (arith, e))
  | inr e ↦ let (q, m, same) = least-attained r ps in (q, Memᴰ.tail m, ground (arith, e, same))
]
