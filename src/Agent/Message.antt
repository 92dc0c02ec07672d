-- ===== src/Agent/Message.antt =====
-- koraku/core/models.py and koraku/core/message_text.py: `AgentMessage`, the part of `SessionState`
-- that the agent loop writes, and `message_text`.
use koraku.Prelude.{ℕ, Option, none, some, List, [], ◌∷◌, ◌++◌, if◌then◌else◌}
use koraku.Prelude.Text.{Text, text, strip}
use koraku.Prelude.Json.{Value, get, has_type, as_text, truthy}

pub data Role : Type 0 where
  user assistant : Role

-- `str | list[dict]`
pub data Content : Type 0 where
  plain : Text → Content
  blocks : List Value → Content

pub record AgentMessage : Type 0 where
  pub role : Role
  pub content : Content
  pub stop_reason : Option Text

abbrev pub message : Role → Content → AgentMessage
message role content = record { role = role; content = content; stop_reason = none }

pub record SessionState : Type 0 where
  pub messages : List AgentMessage
  pub step_count : ℕ

-- `add_message`; the time stamp of `touch` is not kept here.
unfoldable pub add_message : SessionState → AgentMessage → SessionState
add_message session msg = record session { messages = session.messages ++ msg ∷ [] }

-- The first value unless it is missing or falsy: `value or ""`.
abbrev pub or_blank : (Value → Text) → Option Value → Text
or_blank repr none = []
or_blank repr (some v) = if truthy v then as_text repr v else []

-- What a block adds to the text of its message.
block_text : (Value → Text) → Value → Text
block_text repr block =
    if has_type block (text "text")
    then or_blank repr (get block (text "text"))
    else if has_type block (text "tool_result")
    then or_blank repr (get block (text "content"))
    else []

block_texts : (Value → Text) → List Value → Text
block_texts repr [] = []
block_texts repr (b ∷ bs) = block_text repr b ++ block_texts repr bs

unfoldable pub message_text : (Value → Text) → Content → Text
unfolding block_text block_texts
message_text repr (plain s) = s
message_text repr (blocks bs) = strip (block_texts repr bs)
