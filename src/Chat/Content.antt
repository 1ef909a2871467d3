-- ===== src/Chat/Content.antt =====
-- normalizeMessageContent of internal/api/chat_flow.go.
use nukara.Base.{String, ◌==◌, Option, none, some, if◌then◌else◌, trim, ◌<>◌}
use nukara.Store.Types.{MessageContent, Float64}

-- `store.MessageContent{Type: contentType}`
abbrev pub bare : String → MessageContent
bare content_type = record {
  content_type = content_type;
  text = "";
  image_base64 = "";
  latitude = none;
  longitude = none;
  name = "";
}

-- The content as it is stored and the prompt for the language model; `none` is errInvalidContent.
abbrev pub Normalized : Type 0
Normalized = Option (MessageContent × String)

abbrev text_content : String → Normalized
text_content text = if text == "" then none else some (record (bare "text") { text = text }, text)

abbrev image_content : String → Normalized
image_content image =
    if image == "" then none else some (record (bare "image") { image_base64 = image }, "用户发送了一张图片")

abbrev place_name : String → String
place_name name = if name == "" then "位置" else name

abbrev location_content : Option Float64 → Option Float64 → String → Normalized
location_content (some latitude) (some longitude) name = some (
  record (bare "location") {
    latitude = some latitude;
    longitude = some longitude;
    name = place_name name;
  },
  "用户发送了位置：" <> place_name name,
)
location_content _ _ name = none

abbrev content_of : String → MessageContent → Normalized
content_of content_type raw =
    if content_type == "text"
    then text_content (trim raw.text)
    else if content_type == "image"
    then image_content (trim raw.image_base64)
    else if content_type == "location"
    then location_content raw.latitude raw.longitude (trim raw.name)
    else none

unfoldable pub normalize_message_content : MessageContent → Normalized
normalize_message_content raw =
    let content_type = trim raw.content_type in
    content_of (if content_type == "" then "text" else content_type) raw
