-- ===== src/Agent/UserMessage.antt =====
-- koraku/agent/utils.py: the content of the user's turn.
use koraku.Prelude.{List, [], ◌∷◌, ◌++◌, map}
use koraku.Prelude.Text.{Text, text, strip, or_text}
use koraku.Prelude.Json.{Value, str, dict}
use koraku.Agent.Message.{Content, plain, blocks}

-- The keys of an image part, blank where they are missing.
pub record ImagePart : Type 0 where
  pub media_type : Text
  pub base64 : Text

abbrev pub image_block : ImagePart → Value
image_block p = dict (
    (text "type", str (text "image"))
    ∷ (
      text "source",
      dict (
          (text "type", str (text "base64"))
          ∷ (text "media_type", str (or_text p.media_type (text "image/png")))
          ∷ (text "data", str p.base64)
          ∷ []),
    )
    ∷ [])

abbrev pub attached_text : Text
attached_text = text "The user attached image(s). Answer based on what you see."

unfoldable pub build_user_message_blocks : Text → List ImagePart → Content
build_user_message_blocks user_input [] = plain user_input
build_user_message_blocks user_input (p ∷ ps) =
    let body = or_text (strip user_input) attached_text in
    blocks (
      map image_block (p ∷ ps)
      ++ dict ((text "type", str (text "text")) ∷ (text "text", str body) ∷ []) ∷ [])
