-- ===== src/Common/Headers.antt =====
-- Which header fields of `make_nv_ls` (src/transport/common.h) reach nghttp2 whole.
use http2_server.Prelude.{◌%◌, ◌^◌, ◌<◌, ◌≡◌, ◌↔◌, ap, arith, length, take_all, length-take}
use http2_server.Prelude.Text.{Text}
use http2_server.Common.{make_nv_ls, field_name, field_value}

make_nv_ls-name :
    (name value : Text) → length name < 2 ^ 16 → field_name (make_nv_ls name value) ≡ name
unfolding make_nv_ls
make_nv_ls-name name value h = take_all _ name (omega arith)

make_nv_ls-value_iff :
    (name value : Text) → (field_value (make_nv_ls name value) ≡ value) ↔ (length value < 2 ^ 16)
unfolding make_nv_ls
make_nv_ls-value_iff name value = (
  λ e. omega (arith, ap length e, length-take (length value % 2 ^ 16) value),
  λ h. take_all _ value (omega arith),
)

-- With a name shorter than 65536 bytes, as every literal of the program is, nghttp2 reads the name
-- whole; and it reads the value whole exactly when the value is shorter than 65536 bytes.
pub make_nv_ls_whole :
    (name value : Text)
    → length name < 2 ^ 16
    → (field_name (make_nv_ls name value) ≡ name)
      × ((field_value (make_nv_ls name value) ≡ value) ↔ (length value < 2 ^ 16))
make_nv_ls_whole name value h = (make_nv_ls-name name value h, make_nv_ls-value_iff name value)
