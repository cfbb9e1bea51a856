-- ===== src/Utils/Yaml.antt =====
-- controllers/internal/utils/yaml.go. The conversion to JSON (github.com/ghodss/yaml) and its
-- decoding (encoding/json), which leaves a nil Gslb for `null`, are parameters.
use k8gb.Prelude.{Option, none, some}
use k8gb.Effect.{Error}
use k8gb.Api.{Gslb}

module _ {Bytes : Type 0} (empty : Gslb) (yaml_to_json : Bytes → Option Error × Bytes)
    (unmarshal : Bytes → Option Error × Option Gslb) where
  abbrev decoded : Option Error × Option Gslb → Option Gslb × Option Error
  decoded (some e, gslb) = (some empty, some e)
  decoded (none, gslb) = (gslb, none)

  abbrev converted : Option Error × Bytes → Option Gslb × Option Error
  converted (some e, json_bytes) = (some empty, some e)
  converted (none, json_bytes) = decoded (unmarshal json_bytes)

  -- The Gslb, nil or not, and the error.
  unfoldable yaml_to_gslb : Bytes → Option Gslb × Option Error
  yaml_to_gslb yaml = converted (yaml_to_json yaml)
