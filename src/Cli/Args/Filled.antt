-- ===== src/Cli/Args/Filled.antt =====
-- args.cpp: what the options leave in a command, and what setting one of them keeps.
use mini_middleware.Prelude.{
  inl, inr, ℕ, ◌≤◌, ◌≡◌, ◌≢◌, refl, sym, [], Bool, true, false, Option, none, some, Bytes, arith,
  Bool-cases, ℤ, pos, negsuc, ltb,
}
use mini_middleware.Cli.Args.{
  CliCommandKind, help, error, topic_list, topic_echo, topic_hz, CliCommand, default_command,
  is_option_token, Parsed, proceed, stop, set_wait_ms, set_count, set_window,
}

abbrev pub exit_code_of : CliCommandKind → ℕ
exit_code_of error = 2
exit_code_of help = 0
exit_code_of topic_list = 0
exit_code_of topic_echo = 0
exit_code_of topic_hz = 0

abbrev pub takes_type : CliCommandKind → Bool
takes_type help = false
takes_type error = false
takes_type topic_list = false
takes_type topic_echo = true
takes_type topic_hz = true

-- What the options can have set: a window of 2 at least, and no text that starts as an option;
-- without `echo` or `hz` no type, no count and no window.
pub record IsFilled (c : CliCommand) : Type 0 where
  pub exits : c.exit_code ≡ exit_code_of c.kind
  pub window_size : ℕ
  pub has_window : c.window ≡ pos window_size
  pub two : 2 ≤ window_size
  pub no_option_type : is_option_token c.type_name ≡ false
  pub no_option_path : is_option_token c.config_path ≡ false
  pub untyped :
      takes_type c.kind ≡ false → (c.type_name ≡ []) × (c.count ≡ pos 0) × (c.window ≡ pos 10)
  pub no_wait : takes_type c.kind ≡ true → c.wait_ms ≡ pos 1500

-- A command to run has its topic and its type.
pub record IsSound (c : CliCommand) : Type 0 where
  pub filled : IsFilled c
  pub typed : takes_type c.kind ≡ true → (c.type_name ≢ []) × (is_option_token c.topic ≡ false)

abbrev pub IsError : CliCommand → Type 0
IsError c = c ≡ record default_command { kind = error; exit_code = 2; message = c.message }

-- Either the error's command, or a command of the same kind and topic.
abbrev pub Outcome : CliCommandKind → Bytes → Parsed → Type 0
Outcome kind topic (proceed c) = IsFilled c × (c.kind ≡ kind) × (c.topic ≡ topic)
Outcome kind topic (stop c) = IsError c

pub start-IsFilled :
    (kind : CliCommandKind) (topic : Bytes)
    → exit_code_of kind ≡ 0
    → IsFilled (record default_command { kind = kind; topic = topic })
start-IsFilled kind topic e = record {
  exits = sym e;
  window_size = 10;
  has_window = refl;
  two = omega arith;
  no_option_type = refl;
  no_option_path = refl;
  untyped = λ _. (refl, refl, refl);
  no_wait = λ _. refl;
}

pub set_window-Outcome :
    (cmd : CliCommand) (n : Option ℤ)
    → takes_type cmd.kind ≡ true
    → IsFilled cmd
    → Outcome cmd.kind cmd.topic (set_window cmd n)
unfolding set_window
set_window-Outcome cmd none t f = refl
set_window-Outcome cmd (some (negsuc n)) t f = refl
set_window-Outcome cmd (some (pos n)) t f = elim (Bool-cases (ltb n 2)) [
  | inl small ↦ rw small refl
  | inr big ↦ rw big (
    record {
      exits = f.exits;
      window_size = n;
      has_window = refl;
      two = ground (arith, big);
      no_option_type = f.no_option_type;
      no_option_path = f.no_option_path;
      untyped = λ h. cc;
      no_wait = f.no_wait;
    },
    refl,
    refl,
  )
]

pub set_count-Outcome :
    (cmd : CliCommand) (n : Option ℤ)
    → takes_type cmd.kind ≡ true
    → IsFilled cmd
    → Outcome cmd.kind cmd.topic (set_count cmd n)
unfolding set_count
set_count-Outcome cmd none t f = refl
set_count-Outcome cmd (some n) t f = (
  record {
    exits = f.exits;
    window_size = f.window_size;
    has_window = f.has_window;
    two = f.two;
    no_option_type = f.no_option_type;
    no_option_path = f.no_option_path;
    untyped = λ h. cc;
    no_wait = f.no_wait;
  },
  refl,
  refl,
)

pub set_wait_ms-Outcome :
    (cmd : CliCommand) (n : Option ℤ)
    → takes_type cmd.kind ≡ false
    → IsFilled cmd
    → Outcome cmd.kind cmd.topic (set_wait_ms cmd n)
unfolding set_wait_ms
set_wait_ms-Outcome cmd none t f = refl
set_wait_ms-Outcome cmd (some n) t f = (
  record {
    exits = f.exits;
    window_size = f.window_size;
    has_window = f.has_window;
    two = f.two;
    no_option_type = f.no_option_type;
    no_option_path = f.no_option_path;
    untyped = f.untyped;
    no_wait = λ h. cc;
  },
  refl,
  refl,
)

pub set_type-Outcome :
    (cmd : CliCommand) (value : Bytes)
    → takes_type cmd.kind ≡ true
    → is_option_token value ≡ false
    → IsFilled cmd
    → Outcome cmd.kind cmd.topic (proceed (record cmd { type_name = value }))
set_type-Outcome cmd value t plain f = (
  record {
    exits = f.exits;
    window_size = f.window_size;
    has_window = f.has_window;
    two = f.two;
    no_option_type = plain;
    no_option_path = f.no_option_path;
    untyped = λ h. cc;
    no_wait = f.no_wait;
  },
  refl,
  refl,
)

pub set_path-Outcome :
    (cmd : CliCommand) (value : Bytes)
    → is_option_token value ≡ false
    → IsFilled cmd
    → Outcome cmd.kind cmd.topic (proceed (record cmd { config_path = value }))
set_path-Outcome cmd value plain f = (
  record {
    exits = f.exits;
    window_size = f.window_size;
    has_window = f.has_window;
    two = f.two;
    no_option_type = f.no_option_type;
    no_option_path = plain;
    untyped = f.untyped;
    no_wait = f.no_wait;
  },
  refl,
  refl,
)
