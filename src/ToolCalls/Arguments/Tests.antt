-- ===== src/ToolCalls/Arguments/Tests.antt =====
-- Runs of ArgumentDslParser of src/runtime/tool_call_parser.cpp, and the theorem at one of them.
use gem16gb.Prelude.{ℕ, ◌+◌, ◌*◌, ◌≡◌, refl, Bool, length, List, arith}
use gem16gb.Status.{ok}
use gem16gb.Json.Escape.{escape_byte}
use gem16gb.Json.Parse.{is_digit}
use gem16gb.Safetensors.{codes}
use gem16gb.ToolCalls.Arguments.{parse_error, parse_arguments, parse_dsl_value}
use gem16gb.ToolCalls.Arguments.Fuel.{parse_dsl_value-fuel}
use gem16gb.ToolCalls.Schema.{every}

abbrev all_digits : List ℕ → Bool
unfolding every
all_digits text = every is_digit text

abbrev nested : List ℕ
nested = codes "{city:<|\"|>Bergen {x}<|\"|>,days:[1,22,[]],rain:{a:true,b:null}}"

runs :
    (parse_arguments all_digits nested
      ≡ ok (codes "{\"city\":\"Bergen {x}\",\"days\":[1,22,[]],\"rain\":{\"a\":true,\"b\":null}}"))
    × (parse_arguments all_digits (codes "{city:<|\"|>Oslo}")
        ≡ parse_error "Gemma tool arguments contain an unterminated string")
    × (parse_arguments all_digits (codes "{:1}")
        ≡ parse_error "Gemma tool arguments contain an invalid object key")
    × (parse_arguments all_digits (codes "{a:[1}")
        ≡ parse_error "Gemma tool arguments contain an unterminated array")
    × (parse_arguments all_digits (codes "{}}")
        ≡ parse_error "Gemma tool arguments contain trailing data")
unfolding parse_arguments all_digits escape_byte
runs = (refl, refl, refl, refl, refl)

parse_dsl_value-fuel_example :
    parse_dsl_value all_digits 500 nested
    ≡ parse_dsl_value all_digits (2 * length nested + 2) nested
parse_dsl_value-fuel_example = parse_dsl_value-fuel all_digits nested 500 (omega arith)
