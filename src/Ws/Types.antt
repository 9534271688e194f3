-- ===== src/Ws/Types.antt =====
-- rockets/ws/types.h, and the calls of rockets/ws/channel.cpp to libwebsockets.
use rockets.Prelude.{Text, Bool, true, false, if◌then◌else◌, []}

pub data Format : Type 0 where
  text binary unspecified : Format

pub data Recipient : Type 0 where
  sender others all : Recipient

pub record Response : Type 0 where
  pub message : Text
  pub recipient : Recipient
  pub format : Format

-- A default-constructed response.
abbrev pub no_response : Response
no_response = record { message = []; recipient = sender; format = unspecified }

-- What libwebsockets does on one connection: whether its socket takes no more, the request for a
-- callback when it does, and a message that is written, `true` for text.
pub record Lws : Type 1 where
  pub Wsi : Type 0
  pub send_pipe_choked : Wsi → Bool
  pub callback_on_writable : Wsi → Wsi
  pub write : Text → Bool → Wsi → Wsi

-- What libwebsockets reports with the data of a message: whether this is the final fragment, and
-- whether the frame is binary.
pub record Fragment : Type 0 where
  pub content : Text
  pub is_final : Bool
  pub is_binary : Bool

-- Channel::currentMessageHasMore and getCurrentMessageFormat
abbrev pub has_more : Fragment → Bool
has_more f = if f.is_final then false else true

unfoldable pub current_format : Fragment → Format
current_format f = if f.is_binary then binary else text

abbrev pub is_text : Format → Bool
is_text text = true
is_text _ = false
