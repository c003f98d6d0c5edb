-- ===== src/Priority/Wire.antt =====
-- src/priority.rs: priorities against the strings that travel on the wire.
use ecapplog_rust.Base.{
  Bool, true, false, not, ◌&&◌, ◌||◌, ◌≡◌, ◌≢◌, ◌↔◌, refl, sym, ap, ◌∙◌, inl, inr, subst,
  Bool-cases,
}
use ecapplog_rust.Base.Text.{Text, codes, text_eq, text_eq→eq, text_eq_false→ne, to_ascii_uppercase}
use ecapplog_rust.Priority.{
  Priority, trace, debug, information, notice, warning, fatal, critical, error, custom, as_str,
  is_error, is_error_or_warning, from_str,
}

-- The eight priorities that the protocol names.
abbrev pub IsNamed : Priority → Type 0
IsNamed (custom s) = ⊥
IsNamed _ = Unit {0}

-- What a text stands for, said without the parser: the priority whose wire name it spells in any
-- case, or itself if it spells none.
abbrev pub Denotes : Text → Priority → Type 0
Denotes s (custom t) = (t ≡ s) × ((q : Priority) → IsNamed q → as_str q ≢ to_ascii_uppercase s)
Denotes s p = as_str p ≡ to_ascii_uppercase s

module _ (s : Text) where
  abbrev u : Text
  u = to_ascii_uppercase s

  hit : (p : Priority) → text_eq u (as_str p) ≡ true → as_str p ≡ u
  hit p h = sym (text_eq→eq u (as_str p) h)

  miss : (p : Priority) → text_eq u (as_str p) ≡ false → as_str p ≢ u
  miss p h = text_eq_false→ne u (as_str p) h

  from_str-Denotes : Denotes s (from_str s)
  unfolding from_str as_str
  from_str-Denotes = elim (Bool-cases (text_eq u (codes "TRACE"))) [
    | inl h ↦ rw h (hit trace h)
    | inr h₁ ↦ rw h₁ (elim (Bool-cases (text_eq u (codes "DEBUG"))) [
      | inl h ↦ rw h (hit debug h)
      | inr h₂ ↦ rw h₂ (elim (Bool-cases (text_eq u (codes "INFORMATION"))) [
        | inl h ↦ rw h (hit information h)
        | inr h₃ ↦ rw h₃ (elim (Bool-cases (text_eq u (codes "NOTICE"))) [
          | inl h ↦ rw h (hit notice h)
          | inr h₄ ↦ rw h₄ (elim (Bool-cases (text_eq u (codes "WARNING"))) [
            | inl h ↦ rw h (hit warning h)
            | inr h₅ ↦ rw h₅ (elim (Bool-cases (text_eq u (codes "FATAL"))) [
              | inl h ↦ rw h (hit fatal h)
              | inr h₆ ↦ rw h₆ (elim (Bool-cases (text_eq u (codes "CRITICAL"))) [
                | inl h ↦ rw h (hit critical h)
                | inr h₇ ↦ rw h₇ (elim (Bool-cases (text_eq u (codes "ERROR"))) [
                  | inl h ↦ rw h (hit error h)
                  | inr h₈ ↦ rw h₈ (
                    refl,
                    elim [
                      | trace ↦ λ _. miss trace h₁
                      | debug ↦ λ _. miss debug h₂
                      | information ↦ λ _. miss information h₃
                      | notice ↦ λ _. miss notice h₄
                      | warning ↦ λ _. miss warning h₅
                      | fatal ↦ λ _. miss fatal h₆
                      | critical ↦ λ _. miss critical h₇
                      | error ↦ λ _. miss error h₈
                      | custom t ↦ λ n. absurd n
                    ],
                  )
                ])
              ])
            ])
          ])
        ])
      ])
    ])
  ]

-- A named priority is what each spelling of its wire name parses to.
from_str-of_spelling :
    (s : Text) (p : Priority) → IsNamed p → as_str p ≡ to_ascii_uppercase s → from_str s ≡ p
unfolding from_str as_str text_eq
from_str-of_spelling s trace n e = rw (← e) refl
from_str-of_spelling s debug n e = rw (← e) refl
from_str-of_spelling s information n e = rw (← e) refl
from_str-of_spelling s notice n e = rw (← e) refl
from_str-of_spelling s warning n e = rw (← e) refl
from_str-of_spelling s fatal n e = rw (← e) refl
from_str-of_spelling s critical n e = rw (← e) refl
from_str-of_spelling s error n e = rw (← e) refl
from_str-of_spelling s (custom t) n e = absurd n

custom_unique : (s t : Text) (p : Priority) → Denotes s p → Denotes s (custom t) → p ≡ custom t
custom_unique s t trace e d = absurd (d.1 trace tt e)
custom_unique s t debug e d = absurd (d.1 debug tt e)
custom_unique s t information e d = absurd (d.1 information tt e)
custom_unique s t notice e d = absurd (d.1 notice tt e)
custom_unique s t warning e d = absurd (d.1 warning tt e)
custom_unique s t fatal e d = absurd (d.1 fatal tt e)
custom_unique s t critical e d = absurd (d.1 critical tt e)
custom_unique s t error e d = absurd (d.1 error tt e)
custom_unique s t (custom r) e d = ap custom (e.0 ∙ sym d.0)

Denotes-from_str : (s : Text) (p : Priority) → Denotes s p → from_str s ≡ p
Denotes-from_str s trace d = from_str-of_spelling s trace tt d
Denotes-from_str s debug d = from_str-of_spelling s debug tt d
Denotes-from_str s information d = from_str-of_spelling s information tt d
Denotes-from_str s notice d = from_str-of_spelling s notice tt d
Denotes-from_str s warning d = from_str-of_spelling s warning tt d
Denotes-from_str s fatal d = from_str-of_spelling s fatal tt d
Denotes-from_str s critical d = from_str-of_spelling s critical tt d
Denotes-from_str s error d = from_str-of_spelling s error tt d
Denotes-from_str s (custom t) d = custom_unique s t (from_str s) (from_str-Denotes s) d

-- Parsing `s` gives `p` exactly when `s` denotes `p`: the named priority whose wire name is the
-- ASCII upper-cased `s`, or the custom priority with the text `s` when there is no such name.
pub from_str_iff : (s : Text) (p : Priority) → (from_str s ≡ p) ↔ Denotes s p
from_str_iff s p = (λ e. subst (Denotes s) e (from_str-Denotes s), Denotes-from_str s p)

-- Parsing the wire name of a named priority gives that priority back.
from_str-as_str : (p : Priority) → IsNamed p → from_str (as_str p) ≡ p
unfolding from_str as_str text_eq to_ascii_uppercase
from_str-as_str trace n = refl
from_str-as_str debug n = refl
from_str-as_str information n = refl
from_str-as_str notice n = refl
from_str-as_str warning n = refl
from_str-as_str fatal n = refl
from_str-as_str critical n = refl
from_str-as_str error n = refl
from_str-as_str (custom t) n = absurd n

parsed_again : (s : Text) (p : Priority) → Denotes s p → from_str (as_str p) ≡ p
unfolding as_str
parsed_again s (custom t) d = Denotes-from_str t (custom t) (refl, λ q n. rw (d.0) (d.1 q n))
parsed_again s p d = from_str-as_str p tt

-- Parsing is stable: printing what was parsed and parsing that again changes nothing.
from_str_stable : (s : Text) → from_str (as_str (from_str s)) ≡ from_str s
from_str_stable s = parsed_again s (from_str s) (from_str-Denotes s)

-- The classification of a wire string by literal comparison with the error names.
abbrev pub error_text : Text → Bool
error_text t =
    text_eq t (codes "FATAL") || (text_eq t (codes "CRITICAL") || text_eq t (codes "ERROR"))

custom-not_named :
    (s t : Text) (q : Priority)
    → Denotes s (custom t)
    → IsNamed q
    → to_ascii_uppercase (as_str q) ≡ as_str q
    → text_eq t (as_str q) ≡ false
custom-not_named s t q d n e = elim (Bool-cases (text_eq t (as_str q))) [
  | inr h ↦ h
  | inl h ↦ absurd (d.1 q n (sym e ∙ ap to_ascii_uppercase (sym (text_eq→eq t (as_str q) h) ∙ d.0)))
]

Denotes-is_error : (s : Text) (p : Priority) → Denotes s p → is_error p ≡ error_text (as_str p)
unfolding is_error as_str text_eq to_ascii_uppercase
Denotes-is_error s (custom t) d = rw (
  custom-not_named s t fatal d tt refl,
  custom-not_named s t critical d tt refl,
  custom-not_named s t error d tt refl,
)
Denotes-is_error s trace d = refl
Denotes-is_error s p d = refl

-- On every parsed priority, `is_error` agrees with a literal comparison of the string that is sent.
pub is_error-from_str : (s : Text) → is_error (from_str s) ≡ error_text (as_str (from_str s))
is_error-from_str s = Denotes-is_error s (from_str s) (from_str-Denotes s)

and_false : (b : Bool) → (b && false) ≡ false
and_false true = refl
and_false false = refl

abbrev pub is_custom : Priority → Bool
is_custom (custom s) = true
is_custom _ = false

abbrev pub warning_text : Text → Bool
warning_text t = error_text t || text_eq t (codes "WARNING")

-- `is_error` and `is_error_or_warning` are what a literal comparison of the wire string with the names
-- of the errors, and of the warning, says, but for the custom priorities: those are never errors or
-- warnings, whatever they spell.
pub is_error-on_wire :
    (p : Priority)
    → (is_error p ≡ (error_text (as_str p) && not (is_custom p)))
      × (is_error_or_warning p ≡ (warning_text (as_str p) && not (is_custom p)))
unfolding is_error is_error_or_warning as_str text_eq
is_error-on_wire trace = (refl, refl)
is_error-on_wire debug = (refl, refl)
is_error-on_wire information = (refl, refl)
is_error-on_wire notice = (refl, refl)
is_error-on_wire warning = (refl, refl)
is_error-on_wire fatal = (refl, refl)
is_error-on_wire critical = (refl, refl)
is_error-on_wire error = (refl, refl)
is_error-on_wire (custom s) = (sym (and_false (error_text s)), sym (and_false (warning_text s)))
