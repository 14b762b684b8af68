-- ===== src/Cli/Args/Options.antt =====
-- args.cpp: the loop over the options keeps the invariant, or gives an error's command.
use mini_middleware.Prelude.{
  inl, inr, ◌≡◌, refl, subst, List, [], ◌∷◌, ◌++◌, true, false, Bytes, codes, Bool-cases, bytes_eq,
  bytes_eq_iff, String, if◌then◌else◌, ◌++◌,
}
use mini_middleware.Cli.Args.{
  CliCommandKind, help, error, topic_list, topic_echo, topic_hz, CliCommand, is_text,
  is_option_token, is_option_allowed, Parsed, proceed, stop, fail, set_wait_ms, set_count,
  set_window, parse_non_negative_int, apply_option, and_then, parse_options,
}
use mini_middleware.Cli.Args.Filled.{
  takes_type, IsFilled, Outcome, set_window-Outcome, set_count-Outcome, set_wait_ms-Outcome,
  set_type-Outcome, set_path-Outcome,
}

allowed_at :
    (kind : CliCommandKind) (name : Bytes) (option : String)
    → is_option_allowed kind name ≡ true
    → is_text name option ≡ true
    → is_option_allowed kind (codes option) ≡ true
allowed_at kind name option a e =
    subst (λ n. is_option_allowed kind n ≡ true) ((bytes_eq_iff name (codes option)).0 e) a

type_allowed :
    (kind : CliCommandKind)
    → is_option_allowed kind (codes "--type") ≡ true
    → takes_type kind ≡ true
unfolding is_option_allowed bytes_eq
type_allowed help a = cc
type_allowed error a = cc
type_allowed topic_list a = cc
type_allowed topic_echo a = refl
type_allowed topic_hz a = refl

count_allowed :
    (kind : CliCommandKind)
    → is_option_allowed kind (codes "--count") ≡ true
    → takes_type kind ≡ true
unfolding is_option_allowed bytes_eq
count_allowed help a = cc
count_allowed error a = cc
count_allowed topic_list a = cc
count_allowed topic_echo a = refl
count_allowed topic_hz a = refl

window_allowed :
    (kind : CliCommandKind)
    → is_option_allowed kind (codes "--window") ≡ true
    → takes_type kind ≡ true
unfolding is_option_allowed bytes_eq
window_allowed help a = cc
window_allowed error a = cc
window_allowed topic_list a = cc
window_allowed topic_echo a = cc
window_allowed topic_hz a = refl

wait_allowed :
    (kind : CliCommandKind)
    → is_option_allowed kind (codes "--wait-ms") ≡ true
    → takes_type kind ≡ false
unfolding is_option_allowed bytes_eq
wait_allowed help a = cc
wait_allowed error a = cc
wait_allowed topic_list a = refl
wait_allowed topic_echo a = cc
wait_allowed topic_hz a = cc

apply_option-Outcome :
    (cmd : CliCommand) (name value : Bytes)
    → IsFilled cmd
    → Outcome cmd.kind cmd.topic (apply_option cmd name value)
unfolding apply_option
apply_option-Outcome cmd name value f = elim (Bool-cases (is_option_allowed cmd.kind name)) [
  | inr other ↦ rw other refl
  | inl ok ↦ rw ok (elim (Bool-cases (is_text name "--config")) [
    | inl config ↦ rw config (elim (Bool-cases (is_option_token value)) [
      | inl option ↦ rw option refl
      | inr plain ↦ rw plain (set_path-Outcome cmd value plain f)
    ])
    | inr no_config ↦ rw no_config (elim (Bool-cases (is_text name "--type")) [
      | inl type ↦ rw type (elim (Bool-cases (is_option_token value)) [
        | inl option ↦ rw option refl
        | inr plain ↦ rw plain (
            set_type-Outcome cmd value
              (type_allowed cmd.kind (allowed_at cmd.kind name "--type" ok type)) plain f)
      ])
      | inr no_type ↦ rw no_type (numbers ok)
    ])
  ])
]
  where
    numbers :
        is_option_allowed cmd.kind name ≡ true
        → Outcome cmd.kind cmd.topic (
            if is_text name "--wait-ms"
            then set_wait_ms cmd (parse_non_negative_int value)
            else if is_text name "--count"
            then set_count cmd (parse_non_negative_int value)
            else if is_text name "--window"
            then set_window cmd (parse_non_negative_int value)
            else fail (codes "unknown option: " ++ name))
    numbers ok = elim (Bool-cases (is_text name "--wait-ms")) [
      | inl wait ↦ rw wait (
          set_wait_ms-Outcome cmd (parse_non_negative_int value)
            (wait_allowed cmd.kind (allowed_at cmd.kind name "--wait-ms" ok wait)) f)
      | inr no_wait ↦ rw no_wait (elim (Bool-cases (is_text name "--count")) [
        | inl count ↦ rw count (
            set_count-Outcome cmd (parse_non_negative_int value)
              (count_allowed cmd.kind (allowed_at cmd.kind name "--count" ok count)) f)
        | inr no_count ↦ rw no_count (elim (Bool-cases (is_text name "--window")) [
          | inl window ↦ rw window (
              set_window-Outcome cmd (parse_non_negative_int value)
                (window_allowed cmd.kind (allowed_at cmd.kind name "--window" ok window)) f)
          | inr no_window ↦ rw no_window refl
        ])
      ])
    ]

pub parse_options-Outcome :
    (args : List Bytes) (cmd : CliCommand)
    → IsFilled cmd
    → Outcome cmd.kind cmd.topic (parse_options args cmd)
unfolding parse_options
parse_options-Outcome [] cmd f = (f, refl, refl)
parse_options-Outcome (name ∷ []) cmd f = elim (Bool-cases (is_option_token name)) [
  | inl option ↦ rw option refl
  | inr plain ↦ rw plain refl
]
parse_options-Outcome (name ∷ value ∷ rest) cmd f = elim (Bool-cases (is_option_token name)) [
  | inr plain ↦ rw plain refl
  | inl option ↦ rw option (
      go (apply_option cmd name value) (apply_option-Outcome cmd name value f)
        (λ c. parse_options-Outcome rest c))
]
  where
    go :
        (p : Parsed)
        → Outcome cmd.kind cmd.topic p
        → ((c : CliCommand) → IsFilled c → Outcome c.kind c.topic (parse_options rest c))
        → Outcome cmd.kind cmd.topic (and_then p (λ c. parse_options rest c))
    go (stop c) e next = e
    go (proceed c) (g, kind, topic) next =
        subst (λ k. Outcome k cmd.topic (parse_options rest c)) kind
          (subst (λ t. Outcome c.kind t (parse_options rest c)) topic (next c g))
