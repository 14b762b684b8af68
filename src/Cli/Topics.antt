-- ===== src/Cli/Topics.antt =====
-- cli/src/topic_commands.cpp. A command that has subscribed runs the callback for each message that
-- comes; `echo` gets it serialized again, `hz` gets the time. A count of 0 or less makes a command
-- that never returns. A rate is a number of intervals and the time that they took.
pub mod Counted
pub mod Rates
use mini_middleware.Prelude.{
  ℕ, ◌+◌, ◌-◌, min, List, [], ◌∷◌, ◌++◌, map, Bool, true, false, ◌&&◌, ◌||◌, not, Option, none,
  some, Bytes, bytes_eq, codes, to_string, concat, length, get_or, ltb, leb, if◌then◌else◌, ℤ, pos,
  negsuc,
}
use mini_middleware.Cli.Format.{
  Protobuf, FormatResult, format_message, supported_message_types, string_type, point_type,
  cloud_type,
}
use mini_middleware.Discovery.Endpoint.{
  Kind, publisher, subscriber, service, client, unknown, Locator,
}
use mini_middleware.Discovery.Agent.{Agent, DiscoveredEndpoint, snapshot_endpoints}

unfoldable pub kind_name : Kind → Bytes
kind_name publisher = codes "PUBLISHER"
kind_name subscriber = codes "SUBSCRIBER"
kind_name service = codes "SERVICE"
kind_name client = codes "CLIENT"
kind_name (unknown n) = codes "UNKNOWN"

unfoldable pub locator_text : Locator → Bytes
locator_text l = l.ip ++ (58 ∷ to_string l.port)

unfoldable pub print_supported_types : Bytes
print_supported_types =
    codes "supported types:\n"
    ++ concat (map (λ (t : Bytes). codes "  " ++ (t ++ codes "\n")) supported_message_types)

abbrev tab : Bytes
tab = codes "\t"

unfoldable pub list_row : DiscoveredEndpoint → Bytes
list_row e =
    kind_name e.endpoint.kind
    ++ (tab
        ++ (e.endpoint.topic
            ++ (tab
                ++ (e.endpoint.type_name
                    ++ (tab ++ (e.node_name ++ (tab ++ (locator_text e.locator ++ codes "\n"))))))))

unfoldable pub run_topic_list : Agent → Bytes
run_topic_list discovery =
    codes "KIND\tTOPIC\tTYPE\tNODE\tLOCATOR\n"
    ++ concat (map list_row (snapshot_endpoints discovery))

-- `count > 0 && received >= count`
abbrev pub is_reached : ℤ → ℕ → Bool
is_reached (pos count) received = ltb 0 count && leb count received
is_reached (negsuc count) received = false

-- `count <= 0`
abbrev pub is_endless : ℤ → Bool
is_endless (pos count) = not (ltb 0 count)
is_endless (negsuc count) = true

pub record EchoState : Type 0 where
  pub received : ℕ
  pub done : Bool
  pub out : Bytes

abbrev pub new_echo : EchoState
new_echo = record { received = 0; done = false; out = [] }

-- What is printed for a message.
unfoldable pub echo_text : FormatResult → Bytes
echo_text f = (if f.ok then f.text else f.error) ++ codes "\n---\n"

unfoldable pub echo_callback : Protobuf → Bytes → ℤ → EchoState → Bytes → EchoState
echo_callback pb type_name count s bytes = if s.done then s else record {
  received = s.received + 1;
  done = is_reached count (s.received + 1);
  out = s.out ++ echo_text (format_message pb type_name bytes);
}

unfoldable pub run_echo : Protobuf → Bytes → ℤ → EchoState → List Bytes → EchoState
run_echo pb type_name count s [] = s
run_echo pb type_name count s (bytes ∷ messages) =
    run_echo pb type_name count (echo_callback pb type_name count s bytes) messages

pub record HzState : Type 0 where
  pub timestamps : List ℕ
  pub done : Bool

abbrev pub new_hz : HzState
new_hz = record { timestamps = []; done = false }

unfoldable pub hz_callback : ℤ → HzState → ℕ → HzState
hz_callback count s now =
    let timestamps = s.timestamps ++ (now ∷ []) in
    if s.done
    then s
    else record { timestamps = timestamps; done = is_reached count (length timestamps) }

unfoldable pub run_hz : ℤ → HzState → List ℕ → HzState
run_hz count s [] = s
run_hz count s (now ∷ times) = run_hz count (hz_callback count s now) times

abbrev pub bounded_window : ℤ → ℕ
bounded_window (pos window) = if ltb 1 window then window else 2
bounded_window (negsuc window) = 2

-- The rate of the last samples, none for 0.
unfoldable pub hz_rate : ℤ → List ℕ → Option (ℕ × ℕ)
hz_rate window timestamps =
    let size = length timestamps in
    let sample_count = min (bounded_window window) size in
    let first = get_or timestamps (size - sample_count) 0 in
    let last = get_or timestamps (size - 1) 0 in
    if leb 2 sample_count
    then if ltb first last then some (sample_count - 1, last - first) else none
    else none

-- What `run_topic_echo` and `run_topic_hz` do: subscribe as one of the types, or print the types and
-- give 2.
pub data Dispatch : Type 0 where
  subscribes_as : Bytes → Dispatch
  unsupported : Bytes → ℕ → Dispatch

unfoldable pub dispatch : Bytes → Dispatch
dispatch type_name =
    if bytes_eq type_name string_type
    then subscribes_as string_type
    else if bytes_eq type_name point_type
    then subscribes_as point_type
    else if bytes_eq type_name cloud_type
    then subscribes_as cloud_type
    else unsupported print_supported_types 2

-- What a command has done: returned an exit code, or still waits; and what it has printed.
pub data Outcome : Type 0 where
  returned : ℕ → Bytes → Outcome
  running : Bytes → Outcome

echo_as : Protobuf → Bytes → ℤ → List Bytes → Dispatch → Outcome
echo_as pb type_name count messages (unsupported out code) = returned code out
echo_as pb type_name count messages (subscribes_as type) =
    let s = run_echo pb type_name count new_echo messages in
    if is_endless count || not s.done then running s.out else returned 0 s.out

-- `run_topic_echo`, when these messages have come.
unfoldable pub run_topic_echo : Protobuf → Bytes → ℤ → List Bytes → Outcome
unfolding echo_as
run_topic_echo pb type_name count messages =
    echo_as pb type_name count messages (dispatch type_name)

hz_as : (Option (ℕ × ℕ) → Bytes) → ℤ → ℤ → List ℕ → Dispatch → Outcome
hz_as print_rate window count times (unsupported out code) = returned code out
hz_as print_rate window count times (subscribes_as type) =
    let s = run_hz count new_hz times in
    if is_endless count || not s.done
    then running []
    else returned 0
        (codes "average rate: " ++ (print_rate (hz_rate window s.timestamps) ++ codes " Hz\n"))

-- `run_topic_hz`, when messages have come at these times; `print_rate` prints two decimals.
unfoldable pub run_topic_hz : (Option (ℕ × ℕ) → Bytes) → Bytes → ℤ → ℤ → List ℕ → Outcome
unfolding hz_as
run_topic_hz print_rate type_name window count times =
    hz_as print_rate window count times (dispatch type_name)
