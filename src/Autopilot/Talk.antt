-- ===== src/Autopilot/Talk.antt =====
-- driftdriver/project_autopilot.py: a worker of the session driver, `launch_worker` and `converse`.
use driftdriver.Base.{
  String, not, ◌&&◌, Option, none, some, List, [], ◌∷◌, ◌++◌, length, is_empty, strip, ltb,
  if◌then◌else◌,
}
use driftdriver.Base.Value.{
  Value, null, str, list, dict, nil, cons, Values, end, Result, ok, err, ◌>>=◌, Fault, is_zero,
  truthy, get, or_else, is_the_text,
}
use driftdriver.Base.Platform.{Platform, str_of}
use driftdriver.Directive.Command.{each}
use driftdriver.Autopilot.Text.{join_lines}
use driftdriver.Autopilot.State.{Outside, Completed}

-- `worker_info`, `None` where the worker could not be launched; `json.loads` may give any value.
unfoldable pub launch_worker : Outside → String → List (String × String) → Result Value
launch_worker o worker env =
    if o.has_launch_script
    then (o.launch worker env >>= λ c. ok (
        if is_zero c.returncode
        then elim (o.loads (strip c.stdout)) [ none ↦ null | some v ↦ v ]
        else null))
    else ok null

-- `v.get(k)`
unfoldable pub get_of : String → Value → Result Value
get_of k (dict d) = ok (get k d)
get_of k _ = err Fault.attribute_error

-- The texts of the blocks of one message.
unfoldable pub block_texts : Platform → Values → List String
block_texts p nil = []
block_texts p (cons (dict d) blocks) =
    let rest = block_texts p blocks in
    if is_the_text "text" (get "type" d) && truthy (get "text" d)
    then str_of p (or_else (get "text" d) (str "")) ∷ rest
    else rest
block_texts p (cons _ blocks) = block_texts p blocks

abbrev message_of : List String → List String
message_of [] = []
message_of (t ∷ ts) = join_lines (t ∷ ts) ∷ []

-- The message in one payload, if it is the assistant's and has a text.
unfoldable pub payload_message : Platform → Value → Result (List String)
payload_message p payload = get_of "type" payload >>= λ kind.
    (if is_the_text "assistant" kind
      then (get_of "message" payload >>= λ message.
          get_of "content" (or_else message (dict end)) >>= λ content.
          each (or_else content (list nil)) >>= λ blocks. ok (message_of (block_texts p blocks)))
      else ok [])

-- A line of the log; one that is blank or no JSON is passed over.
unfoldable pub line_message : Platform → Outside → String → Result (List String)
line_message p o raw =
    if is_empty raw
    then ok []
    else elim (o.loads raw) [ none ↦ ok [] | some payload ↦ payload_message p payload ]

unfoldable pub lines_messages : Platform → Outside → List String → Result (List String)
lines_messages p o [] = ok []
lines_messages p o (line ∷ lines) = line_message p o (strip line) >>= λ found.
    lines_messages p o lines >>= λ rest. ok (found ++ rest)

-- `_assistant_text_messages`
unfoldable pub assistant_text_messages :
    Platform → Outside → Option (List String) → Result (List String)
assistant_text_messages p o none = ok []
assistant_text_messages p o (some lines) = lines_messages p o lines

-- `_last_assistant_text`, of the messages
unfoldable pub last_text : List String → String
last_text [] = ""
last_text (m ∷ []) = m
last_text (m ∷ more) = last_text more

-- The looks at the log until the deadline.
unfoldable pub await_response :
    Platform → Outside → List String → List (Option (List String)) → Result String
await_response p o before [] = ok "Error: Timed out waiting for assistant response in session log"
await_response p o before (log ∷ later) = assistant_text_messages p o log >>= λ messages.
    (if ltb (length before) (length messages) && not (is_empty (last_text messages))
      then ok (last_text messages)
      else await_response p o before later)

abbrev said : Completed → String
said c = strip (if is_empty c.stderr then c.stdout else c.stderr)

-- `converse`, for a session whose log is found
unfoldable pub converse : Platform → Outside → String → Result String
converse p o id =
    let c = o.conversation id in
    assistant_text_messages p o c.log_before >>= λ before. c.send >>= λ sent.
    (if is_zero sent.returncode
      then (c.wait >>= λ waited.
          (if is_zero waited.returncode
            then await_response p o before c.looks
            else ok (said waited)))
      else ok (said sent))
