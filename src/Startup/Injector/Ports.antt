-- ===== src/Startup/Injector/Ports.antt =====
-- The port of the sidecar that cmd/koshi/injector.go reads.
use koshi_runtime.Base.{◌≡◌, refl, none, some}
use koshi_runtime.Base.Int.{pos, negsuc}
use koshi_runtime.Startup.Injector.{digits, digits_from, atoi, sidecar_port}

-- Runs of strconv.Atoi.
a_number : atoi "15090" ≡ some (pos 15090)
unfolding atoi digits digits_from
a_number = refl

a_negative_number : atoi "-7" ≡ some (negsuc 6)
unfolding atoi digits digits_from
a_negative_number = refl

not_a_number : atoi "80a" ≡ none
unfolding atoi digits digits_from
not_a_number = refl

too_large : atoi "9223372036854775808" ≡ none
unfolding atoi digits digits_from
too_large = refl

-- The port is that of the environment only where it is positive.
ports :
    (sidecar_port "15090" ≡ 15090)
    × (sidecar_port "" ≡ 15080)
    × (sidecar_port "0" ≡ 15080)
    × (sidecar_port "-7" ≡ 15080)
    × (sidecar_port "web" ≡ 15080)
unfolding sidecar_port atoi digits digits_from
ports = (refl, refl, refl, refl, refl)
