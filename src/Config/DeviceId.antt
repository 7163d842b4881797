-- ===== src/Config/DeviceId.antt =====
-- The device id in a connection string.
use csnd.Prelude.{◌<◌, ◌≡◌, ap, ◌∙◌, [], ◌∷◌, ◌++◌, Text, length, arith}
use csnd.Util.Split.{Free, split-pieces, pieces-cons, pieces-last}
use csnd.Config.{parse_device_id}

-- In `host;key=id;rest`, where the host and `key=id` hold no `;`, the key no `=`, and the id, which
-- is not empty, no `=`, the device id is `id`, whatever the rest is.
pub parse_device_id-of_string :
    (host key id rest default_id : Text)
    → Free b';' host
    → Free b';' (key ++ b'=' ∷ id)
    → Free b'=' key
    → Free b'=' id
    → 0 < length id
    → parse_device_id (host ++ b';' ∷ ((key ++ b'=' ∷ id) ++ b';' ∷ rest)) default_id ≡ id
unfolding parse_device_id
parse_device_id-of_string host key [] rest default_id host_free kv_free key_free id_free full =
    absurd (omega arith)
parse_device_id-of_string host key (c ∷ id) rest default_id host_free kv_free key_free id_free
      full =
    let outer =
      split-pieces (host ++ b';' ∷ ((key ++ b'=' ∷ c ∷ id) ++ b';' ∷ rest)) b';'
      ∙ pieces-cons b';' host ((key ++ b'=' ∷ c ∷ id) ++ b';' ∷ rest) host_free
      ∙ ap (◌∷◌ host) (pieces-cons b';' (key ++ b'=' ∷ c ∷ id) rest kv_free) in
    let inner =
      split-pieces (key ++ b'=' ∷ c ∷ id) b'='
      ∙ pieces-cons b'=' key (c ∷ id) key_free
      ∙ ap (◌∷◌ key) (pieces-last b'=' (c ∷ id) id_free) in
    rw (outer, inner) (ground arith)
