-- ===== src/Pb/ParamsPb.antt =====
-- x/wordle/types/params.pb.go: the Params message, which has no fields.
use wordle.Prelude.{ℕ, ◌≡◌, refl, none, Bytes, []}
use wordle.Types.{Params, params}
use wordle.Pb.Varint.{Decoded, ok}
use wordle.Pb.Field.{Fields, unmarshal, read_fields}
use wordle.Pb.Field.Ends.{FieldsEnd}

unfoldable pub marshal_params : Params → Bytes
marshal_params m = []

unfoldable pub size_params : Params → ℕ
size_params m = 0

unfoldable pub params_fields : Fields Params
params_fields l number wire_type rest m = none

unfoldable pub unmarshal_params : Bytes → Decoded Params
unmarshal_params = unmarshal params_fields params

pub unmarshal-marshal_params : (m : Params) → unmarshal_params (marshal_params m) ≡ ok m
unfolding unmarshal_params unmarshal marshal_params read_fields
unmarshal-marshal_params params = refl

pub params_fields-End : FieldsEnd params_fields
unfolding params_fields
params_fields-End l number wire_type rest m = tt
