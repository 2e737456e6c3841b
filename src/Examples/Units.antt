-- ===== src/Examples/Units.antt =====
-- Tests of the decimal texts of amounts, and the round trip at one of them.
use grpc_go_project.Prelude.{◌≡◌, refl, some}
use grpc_go_project.Prelude.Int.{pos, negsuc}
use grpc_go_project.Prelude.Text.{codes}
use grpc_go_project.Units.{digits_from, decimal, trim_right, format_magnitude, format_units}
use grpc_go_project.Units.ReadBack.{read_amount}
use grpc_go_project.Units.RoundTrip.{read-format_units}

formats_fraction : format_units (some (pos 1050)) 3 ≡ codes "1.05"
unfolding format_units format_magnitude decimal digits_from trim_right
formats_fraction = refl

formats_negative : format_units (some (negsuc 4)) 2 ≡ codes "-0.05"
unfolding format_units format_magnitude decimal digits_from trim_right
formats_negative = refl

read-format_units_example : read_amount 3 0 (format_units (some (pos 1050)) 3) ≡ 1050
read-format_units_example = read-format_units 1050 3
