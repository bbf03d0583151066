-- ===== src/Prelude/Status.antt =====
-- `esp_err_t`, as far as the firmware's components return or test its values.
use mathlib.Core.Path.{◌≡◌, refl}
use mathlib.Core.Bool.{Bool, true, false}

-- `EspErr.ok` is ESP_OK; the others carry the words of their ESP_ERR_ constants.
pub data EspErr : Type 0 where
  ok fail no_mem invalid_arg invalid_state invalid_size invalid_response not_found not_supported
        not_allowed timeout :
      EspErr

-- `err == ESP_OK`.
abbrev pub is_ok : EspErr → Bool
is_ok EspErr.ok = true
is_ok _ = false

pub EspErr-ok_of_is_ok : (e : EspErr) → is_ok e ≡ true → e ≡ EspErr.ok
EspErr-ok_of_is_ok EspErr.ok h = refl
EspErr-ok_of_is_ok e h = cc
