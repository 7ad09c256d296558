-- ===== src/Examples/Missing.antt =====
-- `tx_format` on devices without a controller or an active namespace.
use tx_driver.Api.{tx_format}
use tx_driver.Api.Failing.{tx_format-aborts, tx_format-follows_null}
use tx_driver.Base.{◌≡◌, refl, aborted, fault, false, [], ◌∷◌, inr}
use tx_driver.Early
use tx_driver.Examples.{generous}
use tx_driver.Examples.Entry.{start}
use tx_driver.Examples.Transfers.{one_store}
use tx_driver.Spdk.Held.{empty}
use tx_driver.Spdk.Library.{Library}
use tx_driver.Spdk.Registry.{active_of, active_from}

abbrev no_controller : Library
no_controller = record one_store { probe = λ s. (0, [], s) }

abbrev inactive : Library
inactive = record one_store { is_active = λ ns. false }

tx_format-aborts_example :
    (tx_format no_controller generous 0 1024 start ≡ aborted)
    × (Early.Api.tx_format no_controller generous 4 0 1024 start ≡ aborted)
tx_format-aborts_example =
    tx_format-aborts no_controller generous 4 (λ serial bytes. refl) 0 1024 start 0 [] start.device
      refl (inr refl) refl refl empty

idle : active_of inactive (1 ∷ []) ≡ []
unfolding active_of active_from
idle = refl

tx_format-follows_null_example :
    (tx_format inactive generous 0 1024 start ≡ fault)
    × (Early.Api.tx_format inactive generous 4 0 1024 start ≡ fault)
tx_format-follows_null_example =
    tx_format-follows_null inactive generous 4 (λ serial bytes. refl) 0 1024 start 1 [] start.device
      refl idle refl
