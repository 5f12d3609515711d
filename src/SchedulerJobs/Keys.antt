-- ===== src/SchedulerJobs/Keys.antt =====
-- Job keys: what `build_scheduler_job_key` writes.
use Prim.Native.Char.{Char, code}
use Prim.Native.String.{◌++◌ as append}
use text.Mathlib.TextLemmas.{append_cancel_left, append_assoc, nil-append, cons-append}
use m8flow_bpmn_core.Base.{ℕ, String, Option, none, some, ◌≡◌, ◌≢◌, refl, sym, ap, ◌∙◌, arith}
use m8flow_bpmn_core.Base.Text.{strip}
use m8flow_bpmn_core.Base.Text.Decimal.{show_nat, NoDigit, show_nat_injective, is_digit}
use m8flow_bpmn_core.Model.Scheduler.{SchedulerJobType, job_type_value}
use m8flow_bpmn_core.Session.{ok}
use m8flow_bpmn_core.SchedulerJobs.{id_part, qualifier_part, build_scheduler_job_key}

-- The qualifier as the key holds it.
abbrev pub trimmed : Option String → Option String
trimmed none = none
trimmed (some q) = some (strip q)

append_three :
    (a b c : Char) (s : String)
    → append (String.◌∷◌ a (String.◌∷◌ b (String.◌∷◌ c String.[]))) s
      ≡ String.◌∷◌ a (String.◌∷◌ b (String.◌∷◌ c s))
append_three a b c s =
    cons-append a _ s
    ∙ ap (String.◌∷◌ a) (
        cons-append b _ s
        ∙ ap (String.◌∷◌ b) (cons-append c _ s ∙ ap (String.◌∷◌ c) (nil-append s)))

append_four :
    (a b c d : Char) (s : String)
    → append (String.◌∷◌ a (String.◌∷◌ b (String.◌∷◌ c (String.◌∷◌ d String.[])))) s
      ≡ String.◌∷◌ a (String.◌∷◌ b (String.◌∷◌ c (String.◌∷◌ d s)))
append_four a b c d s = cons-append a _ s ∙ ap (String.◌∷◌ a) (append_three b c d s)

-- The number that the first three characters are, or 0 where there are fewer.
second_code : String → ℕ
second_code String.[] = 0
second_code (String.◌∷◌ a String.[]) = 0
second_code (String.◌∷◌ a (String.◌∷◌ b s)) = code b

third_code : String → ℕ
third_code String.[] = 0
third_code (String.◌∷◌ a String.[]) = 0
third_code (String.◌∷◌ a (String.◌∷◌ b String.[])) = 0
third_code (String.◌∷◌ a (String.◌∷◌ b (String.◌∷◌ c s))) = code c

first_code : String → ℕ
first_code String.[] = 0
first_code (String.◌∷◌ a s) = code a

-- The three parts, as constructors.
q_text :
    (q : String)
    → qualifier_part (some q) ≡ String.◌∷◌ "|" (String.◌∷◌ "q" (String.◌∷◌ ":" (strip q)))
unfolding qualifier_part
q_text q = append_three "|" "q" ":" (strip q)

part_text :
    (c : Char) (n : ℕ) (s : String)
    → append
        (append
          (String.◌∷◌ "|" (String.◌∷◌ "p" (String.◌∷◌ c (String.◌∷◌ ":" String.[]))))
          (show_nat n))
        s
      ≡ String.◌∷◌ "|" (String.◌∷◌ "p" (String.◌∷◌ c (String.◌∷◌ ":" (append (show_nat n) s))))
part_text c n s = append_assoc _ (show_nat n) s ∙ append_four "|" "p" c ":" (append (show_nat n) s)

pd_text : Option ℕ → Option String → String
pd_text d q = append (id_part "|pd:" d) (qualifier_part q)

pi_text : Option ℕ → Option ℕ → Option String → String
pi_text i d q = append (id_part "|pi:" i) (pd_text d q)

qualifier-NoDigit : (q : Option String) → NoDigit (qualifier_part q)
unfolding qualifier_part is_digit
qualifier-NoDigit none = tt
qualifier-NoDigit (some q) = rw q_text refl

pd_text-none : (q : Option String) → pd_text none q ≡ qualifier_part q
unfolding pd_text id_part
pd_text-none q = nil-append (qualifier_part q)

pd_text-some :
    (n : ℕ) (q : Option String)
    → pd_text (some n) q
      ≡ String.◌∷◌ "|" (
          String.◌∷◌ "p" (String.◌∷◌ "d" (String.◌∷◌ ":" (append (show_nat n) (qualifier_part q)))))
unfolding pd_text id_part
pd_text-some n q = part_text "d" n (qualifier_part q)

pi_text-none : (d : Option ℕ) (q : Option String) → pi_text none d q ≡ pd_text d q
unfolding pi_text id_part
pi_text-none d q = nil-append (pd_text d q)

pi_text-some :
    (n : ℕ) (d : Option ℕ) (q : Option String)
    → pi_text (some n) d q
      ≡ String.◌∷◌ "|"
          (String.◌∷◌ "p" (String.◌∷◌ "i" (String.◌∷◌ ":" (append (show_nat n) (pd_text d q)))))
unfolding pi_text id_part
pi_text-some n d q = part_text "i" n (pd_text d q)

pd_text-NoDigit : (d : Option ℕ) (q : Option String) → NoDigit (pd_text d q)
unfolding is_digit
pd_text-NoDigit none q = rw pd_text-none (qualifier-NoDigit q)
pd_text-NoDigit (some n) q = rw pd_text-some refl

qualifier_injective :
    (q r : Option String) → qualifier_part q ≡ qualifier_part r → trimmed q ≡ trimmed r
unfolding qualifier_part
qualifier_injective none none e = refl
qualifier_injective none (some r) e = cc (q_text r)
qualifier_injective (some q) none e = cc (q_text q)
qualifier_injective (some q) (some r) e = ap some (append_cancel_left "|q:" (strip q) (strip r) e)

-- The second character of a qualifier is no "p".
second-qualifier : (q : Option String) → second_code (qualifier_part q) ≢ b'p'
unfolding second_code qualifier_part
second-qualifier none e = omega arith
second-qualifier (some q) e = let h = rw (q_text q) at e in omega arith

abbrev drop_four : String → String
drop_four (String.◌∷◌ a (String.◌∷◌ b (String.◌∷◌ c (String.◌∷◌ d s)))) = s
drop_four s = s

pd_injective :
    (d d' : Option ℕ) (q q' : Option String)
    → pd_text d q ≡ pd_text d' q'
    → (d ≡ d') × (trimmed q ≡ trimmed q')
unfolding second_code
pd_injective none none q q' e =
    (refl, qualifier_injective q q' (sym (pd_text-none q) ∙ e ∙ pd_text-none q'))
pd_injective none (some n) q q' e =
    absurd (second-qualifier q (ap second_code (sym (pd_text-none q) ∙ e ∙ pd_text-some n q')))
pd_injective (some n) none q q' e =
    absurd (second-qualifier q' (ap second_code (sym (pd_text-none q') ∙ sym e ∙ pd_text-some n q)))
pd_injective (some n) (some m) q q' e =
    let (same, rest) =
      show_nat_injective n m (qualifier_part q) (qualifier_part q') (qualifier-NoDigit q)
        (qualifier-NoDigit q') (ap drop_four (sym (pd_text-some n q) ∙ e ∙ pd_text-some m q')) in
    (ap some same, qualifier_injective q q' rest)

third-pd : (d : Option ℕ) (q : Option String) → third_code (pd_text d q) ≢ b'i'
unfolding third_code qualifier_part
third-pd none none e = let h = rw (pd_text-none none) at e in omega arith
third-pd none (some q) e = let h = rw (pd_text-none (some q), q_text q) at e in omega arith
third-pd (some n) q e = let h = rw (pd_text-some n q) at e in omega arith

pi_injective :
    (i i' d d' : Option ℕ) (q q' : Option String)
    → pi_text i d q ≡ pi_text i' d' q'
    → (i ≡ i') × (d ≡ d') × (trimmed q ≡ trimmed q')
unfolding third_code
pi_injective none none d d' q q' e =
    let (same, rest) = pd_injective d d' q q' (sym (pi_text-none d q) ∙ e ∙ pi_text-none d' q') in
    (refl, same, rest)
pi_injective none (some n) d d' q q' e =
    absurd (third-pd d q (ap third_code (sym (pi_text-none d q) ∙ e ∙ pi_text-some n d' q')))
pi_injective (some n) none d d' q q' e =
    absurd (third-pd d' q' (ap third_code (sym (pi_text-none d' q') ∙ sym e ∙ pi_text-some n d q)))
pi_injective (some n) (some m) d d' q q' e =
    let (first_same, tail) =
      show_nat_injective n m (pd_text d q) (pd_text d' q') (pd_text-NoDigit d q)
        (pd_text-NoDigit d' q')
        (ap drop_four (sym (pi_text-some n d q) ∙ e ∙ pi_text-some m d' q')) in
    let (same, rest) = pd_injective d d' q q' tail in (ap some first_same, same, rest)

key_text :
    (t : SchedulerJobType) (i d : Option ℕ) (q : Option String) (k : String)
    → build_scheduler_job_key t i d q ≡ ok k
    → k ≡ append (job_type_value t) (pi_text i d q)
unfolding build_scheduler_job_key pi_text pd_text
key_text t i d q k h = ground arith

type_code : SchedulerJobType → ℕ
type_code SchedulerJobType.intermediate_timer = b'i'
type_code SchedulerJobType.process_retry = b'p'
type_code SchedulerJobType.timer_start = b't'

first-type :
    (t : SchedulerJobType) (s : String) → first_code (append (job_type_value t) s) ≡ type_code t
unfolding first_code job_type_value type_code
first-type SchedulerJobType.intermediate_timer s = rw (cons-append "i" "ntermediate_timer" s)
first-type SchedulerJobType.process_retry s = rw (cons-append "p" "rocess_retry" s)
first-type SchedulerJobType.timer_start s = rw (cons-append "t" "imer_start" s)

type_injective : (t u : SchedulerJobType) → type_code t ≡ type_code u → t ≡ u
unfolding type_code
type_injective t u e = ground arith

-- Two calls that build one key were given the same job type, the same instance, the same
-- definition and, up to outer blanks, the same qualifier.
pub build_scheduler_job_key_injective :
    (t u : SchedulerJobType) (i i' d d' : Option ℕ) (q q' : Option String) (k : String)
    → build_scheduler_job_key t i d q ≡ ok k
    → build_scheduler_job_key u i' d' q' ≡ ok k
    → (t ≡ u) × (i ≡ i') × (d ≡ d') × (trimmed q ≡ trimmed q')
build_scheduler_job_key_injective t u i i' d d' q q' k h h' =
    let e = key_text t i d q k h in
    let e' = key_text u i' d' q' k h' in
    let same : t ≡ u = type_injective t u (
      sym (first-type t (pi_text i d q))
      ∙ ap first_code (sym e ∙ e')
      ∙ first-type u (pi_text i' d' q')) in
    let texts : append (job_type_value t) (pi_text i d q)
        ≡ append (job_type_value t) (pi_text i' d' q') =
      sym e ∙ e' ∙ ap (λ v. append (job_type_value v) (pi_text i' d' q')) (sym same) in
    let (is, ds, qs) =
      pi_injective i i' d d' q q' (append_cancel_left (job_type_value t) _ _ texts) in
    (same, is, ds, qs)
