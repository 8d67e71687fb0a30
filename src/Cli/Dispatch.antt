-- ===== src/Cli/Dispatch.antt =====
-- cmd/lanclip/cli.go: `runCLI`, and `runControl` on its arguments and on the answers of the service.
use mathlib.Core.Path.{subst}
use lanclip.Base.{
  ◌≡◌, Bool, true, false, not, ◌&&◌, ◌||◌, ◌==◌, Option, none, some, List, [], ◌∷◌, Text, codes,
  text_eq, if◌then◌else◌, length, Result, ok, err, arith, ◌≢◌, inl, inr, Bool-cases,
}
use lanclip.Control.{Response}

-- What a command line asks for. A command of the service has its name and, for the four actions, perhaps a
-- device's name.
pub data Task : Type 0 where
  help usage_error version invalid_callback daemon : Task
  clipboard_event : Text → Task
  report : Text → Task
  action : Text → Option Text → Task

unfoldable pub is_action : Text → Bool
unfolding text_eq
is_action c =
    text_eq c (codes "pair")
    || text_eq c (codes "approve")
    || text_eq c (codes "reject")
    || text_eq c (codes "unpair")

unfoldable pub is_report : Text → Bool
unfolding text_eq
is_report c = text_eq c (codes "status") || text_eq c (codes "peers") || text_eq c (codes "doctor")

unfoldable pub is_help : Text → Bool
unfolding text_eq
is_help c = text_eq c (codes "help") || text_eq c (codes "-h") || text_eq c (codes "--help")

-- runControl's tests on the command and the number of arguments.
unfoldable pub control_task : Text → List Text → Task
unfolding is_action is_report
control_task c args =
    if not (is_action c) && not (is_report c)
    then usage_error
    else if is_report c
    then (elim args [ [] ↦ report c | a ∷ more ↦ usage_error ])
    else elim args [
      | [] ↦ action c none
      | a ∷ more ↦ elim more [ [] ↦ action c (some a) | b ∷ rest ↦ usage_error ]
    ]

-- "clipboard-event" takes one argument.
abbrev pub callback_task : List Text → Task
callback_task (path ∷ []) = clipboard_event path
callback_task _ = invalid_callback

abbrev pub alone : List Text → Task → Task
alone [] t = t
alone (a ∷ more) t = usage_error

unfoldable pub run_cli : List Text → Task
unfolding control_task is_help
run_cli [] = help
run_cli (c ∷ args) =
    if length args == 0 && is_help c
    then help
    else if text_eq c (codes "version")
    then alone args version
    else if text_eq c (codes "clipboard-event")
    then callback_task args
    else if text_eq c (codes "daemon")
    then alone args daemon
    else control_task c args

pub data RequestError (E : Type 0) : Type 0 where
  unavailable : E → RequestError E
  refused : Text → RequestError E

-- The closure `request`, on what the call returns.
unfoldable pub request_result {ℓ} :
    {E : Type 0} {D : Type ℓ} → Result E (Response D) → Result (RequestError E) (Response D)
request_result (err e) = err (unavailable e)
request_result (ok r) = if r.okay then ok r else err (refused r.error)

report_only :
    (c : Text) (args : List Text) (d : Text) (device : Option Text)
    → is_report c ≡ true
    → control_task c args ≢ action d device
unfolding control_task
report_only c [] d device r h = ground (arith, h, r)
report_only c (a ∷ more) d device r h = ground (arith, h, r)

action_word :
    (c : Text) (args : List Text) (d : Text) (device : Option Text)
    → is_report c ≡ false
    → is_action c ≡ true
    → control_task c args ≡ action d device
    → c ≡ d
unfolding control_task
action_word c [] d device r a h = ground (arith, h, r, a)
action_word c (x ∷ []) d device r a h = ground (arith, h, r, a)
action_word c (x ∷ y ∷ more) d device r a h = absurd (ground (arith, h, r, a))

-- An action comes only of its own word.
pub control_task-action :
    (c : Text) (args : List Text) (d : Text) (device : Option Text)
    → control_task c args ≡ action d device
    → (c ≡ d) × (is_action c ≡ true)
unfolding control_task
control_task-action c args d device h = elim (Bool-cases (is_report c)) [
  | inl r ↦ absurd (report_only c args d device r h)
  | inr r ↦ elim (Bool-cases (is_action c)) [
    | inr a ↦ absurd (ground (arith, h, r, a))
    | inl a ↦ (action_word c args d device r a h, a)
  ]
]

report_word :
    (c : Text) (args : List Text) (d : Text)
    → is_report c ≡ true
    → control_task c args ≡ report d
    → c ≡ d
unfolding control_task
report_word c [] d r h = ground (arith, h, r)
report_word c (a ∷ more) d r h = absurd (ground (arith, h, r))

reports_only :
    (c : Text) (args : List Text) (d : Text) → is_report c ≡ false → control_task c args ≢ report d
unfolding control_task
reports_only c [] d r h = ground (arith, h, r)
reports_only c (a ∷ []) d r h = ground (arith, h, r)
reports_only c (a ∷ b ∷ more) d r h = ground (arith, h, r)

-- A report comes only of its own word.
pub control_task-report :
    (c : Text) (args : List Text) (d : Text) → control_task c args ≡ report d → is_report d ≡ true
control_task-report c args d h = elim (Bool-cases (is_report c)) [
  | inl r ↦ subst (λ w. is_report w ≡ true) (report_word c args d r h) r
  | inr r ↦ absurd (reports_only c args d r h)
]
