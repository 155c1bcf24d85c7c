-- ===== src/Api/Messages/Dialogue.antt =====
-- The form of a conversation, apart from the code that checks it.
use mathlib.Core.List.{Perm}
use kir_ai.Prelude.{◌≡◌, ◌⊎◌, true, false, none, some, List, [], ◌∷◌, ◌++◌, map, is_empty}
use kir_ai.Json.{Text}
use kir_ai.Api.Error.{system, user, assistant, tool}
use kir_ai.Api.Types.{ToolCall, ChatMessage}
use kir_ai.Api.Messages.{is_some, contains}

pub record IsSystem (m : ChatMessage) : Type 0 where
  pub role : m.role ≡ system
  pub content : is_some m.content ≡ true
  pub no_call_id : m.tool_call_id ≡ none
  pub no_calls : m.tool_calls ≡ []

pub record IsUser (m : ChatMessage) : Type 0 where
  pub role : m.role ≡ user
  pub content : is_some m.content ≡ true
  pub no_call_id : m.tool_call_id ≡ none
  pub no_calls : m.tool_calls ≡ []

pub record IsAssistant (m : ChatMessage) : Type 0 where
  pub role : m.role ≡ assistant
  pub content : (is_some m.content ≡ true) ⊎ (is_empty m.tool_calls ≡ false)
  pub no_call_id : m.tool_call_id ≡ none

-- The message answers the call with an identifier.
pub record IsAnswer (m : ChatMessage) (key : Text) : Type 0 where
  pub role : m.role ≡ tool
  pub content : is_some m.content ≡ true
  pub call_id : m.tool_call_id ≡ some key
  pub no_calls : m.tool_calls ≡ []

pub data Answers : List ChatMessage → List Text → Type 0 where
  no_answer : Answers [] []
  answer :
      {m : ChatMessage} {key : Text} {ms : List ChatMessage} {keys : List Text}
      → IsAnswer m key
      → Answers ms keys
      → Answers (m ∷ ms) (key ∷ keys)

abbrev pub call_ids : List ToolCall → List Text
call_ids calls = map (λ c. c.id) calls

-- No text stands twice.
unfoldable pub IsDistinct : List Text → Type 0
IsDistinct [] = Unit {0}
IsDistinct (key ∷ keys) = (contains key keys ≡ false) × IsDistinct keys

-- Turns of the user and the assistant; the calls of an assistant are answered at once, each once, in
-- any order.
pub data IsConversation : List ChatMessage → Type 0 where
  ended : IsConversation []
  user_turn :
      {m : ChatMessage} {rest : List ChatMessage}
      → IsUser m
      → IsConversation rest
      → IsConversation (m ∷ rest)
  assistant_turn :
      {m : ChatMessage} {keys : List Text} {answers rest : List ChatMessage}
      → IsAssistant m
      → IsDistinct (call_ids m.tool_calls)
      → Answers answers keys
      → Perm keys (call_ids m.tool_calls)
      → IsConversation rest
      → IsConversation (m ∷ (answers ++ rest))

-- System messages come first.
pub data IsDialogue : List ChatMessage → Type 0 where
  conversation : {ms : List ChatMessage} → IsConversation ms → IsDialogue ms
  system_first :
      {m : ChatMessage} {rest : List ChatMessage}
      → IsSystem m
      → IsDialogue rest
      → IsDialogue (m ∷ rest)
