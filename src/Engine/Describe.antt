-- ===== src/Engine/Describe.antt =====
-- The texts of a report, from the anonymous namespace of src/dpi_engine.cpp.
use flow_dpi.Prelude.{ℕ, ◌/◌, ◌%◌, ◌^◌, List, [], ◌∷◌, ◌++◌}
use flow_dpi.Prelude.Text.{to_string}
use Prim.Native.Char.{code}
use Prim.Native.String.{String}

-- The bytes of an ASCII text.
abbrev pub codes : String → List ℕ
codes String.[] = []
codes (String.◌∷◌ c s) = code c ∷ codes s

-- `ipToString`
unfoldable pub ip_to_string : ℕ → List ℕ
unfolding to_string
ip_to_string ip =
    to_string (ip / 2 ^ 24 % 2 ^ 8)
    ++ (codes "."
        ++ (to_string (ip / 2 ^ 16 % 2 ^ 8)
            ++ (codes "."
                ++ (to_string (ip / 2 ^ 8 % 2 ^ 8) ++ (codes "." ++ to_string (ip % 2 ^ 8))))))

-- `describeDirection`
unfoldable pub describe_direction : ℕ → ℕ → ℕ → ℕ → List ℕ
unfolding ip_to_string
describe_direction src_ip src_port dst_ip dst_port =
    ip_to_string src_ip
    ++ (codes ":"
        ++ (to_string src_port
            ++ (codes " -> " ++ (ip_to_string dst_ip ++ (codes ":" ++ to_string dst_port)))))
