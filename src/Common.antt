-- ===== src/Common.antt =====
-- src/transport/common.h: the response value and the header fields handed to nghttp2.
pub mod Headers
use http2_server.Prelude.{ℕ, ◌-◌, ◌+◌, ◌%◌, ◌^◌, String, length, take}
use http2_server.Prelude.Text.{Text, codes}
use http2_server.Prelude.Int.{ℤ, pos}

pub record HttpResponse : Type 0 where
  pub status_code : ℤ
  pub body : Text
  pub content_type : Text

-- The constructor with its default content type.
abbrev pub http_response : ℤ → Text → HttpResponse
http_response status response_body = record {
  status_code = status;
  body = response_body;
  content_type = codes "application/json";
}

-- `nghttp2_nv` without its flags, which are always `NGHTTP2_NV_FLAG_NONE`.
pub record Nv : Type 0 where
  pub name : Text
  pub value : Text
  pub namelen : ℕ
  pub valuelen : ℕ

-- `N` is the size of the literal with its NUL; both lengths pass through `uint16_t`.
unfoldable pub make_nv_ls : Text → Text → Nv
make_nv_ls name value = record {
  name = name;
  value = value;
  namelen = (length name + 1 - 1) % 2 ^ 16;
  valuelen = length value % 2 ^ 16;
}

-- What nghttp2 reads through the pointer and the length of a field.
abbrev pub field_name : Nv → Text
field_name nv = take nv.namelen nv.name

abbrev pub field_value : Nv → Text
field_value nv = take nv.valuelen nv.value
