-- ===== src/Events/Symbols.antt =====
-- events.rs: the highlight groups of `symbols()` that the modelled code reads.
use kubectl_nvim.Prelude.{Text, txt}

abbrev pub error : Text
error = txt "KubectlError"

abbrev pub warning : Text
warning = txt "KubectlWarning"

abbrev pub success : Text
success = txt "KubectlSuccess"

abbrev pub deprecated : Text
deprecated = txt "KubectlDeprecated"

abbrev pub note : Text
note = txt "KubectlNote"
