-- ===== src/Datetime/Tests.antt =====
-- A time before the epoch.
use rocketsocket.Base.{◌≡◌, refl, true, some, arith, ℕ_eq, String_eq, Option_eq}
use rocketsocket.Protocol.{negsuc}
use rocketsocket.Datetime.{from_unix_millis, unix_millis}
use rocketsocket.Datetime.Millis.{unix_millis-from_unix_millis}

-- -1.5 ms.
floors : unix_millis (negsuc 1499999) ≡ negsuc 1
unfolding unix_millis
floors = refl

made : from_unix_millis (λ t. true) (negsuc 41) ≡ some (negsuc 41999999)
unfolding from_unix_millis
made = refl

unix_millis-from_unix_millis_example : unix_millis (negsuc 41999999) ≡ negsuc 41
unix_millis-from_unix_millis_example =
    unix_millis-from_unix_millis (λ t. true) (negsuc 41) (negsuc 41999999) (omega arith) made
