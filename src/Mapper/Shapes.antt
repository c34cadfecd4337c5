-- ===== src/Mapper/Shapes.antt =====
-- What the built-in transforms make of a payload.
use cavi_erp.Prelude.{◌≡◌, refl, [], string_eq}
use cavi_erp.Prelude.Int.{pos}
use cavi_erp.Dict.{put}
use cavi_erp.Json.{Object, null}
use cavi_erp.Error.{ok}
use cavi_erp.Mapper.Paths.{find_path}
use cavi_erp.Mapper.Coercion.{
  coerce, run_steps, register_all, forge_write_requested_v1_to_v2, forge_write_requested_v2_to_v3,
}

-- With the built-in transforms, a `forge.write.requested` payload of version 1 is taken to version 3
-- through version 2: it gets a null `reverses` and a null `target_external_id`.
pub coerce_proposal :
    (payload : Object)
    → coerce (register_all []) "forge.write.requested" (pos 1) (pos 3) payload
      ≡ ok (put "target_external_id" null (put "reverses" null payload))
unfolding coerce find_path run_steps register_all forge_write_requested_v1_to_v2
    forge_write_requested_v2_to_v3
coerce_proposal payload = refl
