-- ===== src/AddressField/Tests.antt =====
-- The law of the address field at concrete addresses.
use pico_lan.Prelude.{◌≡◌, true, ◌==◌, if◌then◌else◌}
use pico_lan.Etk.Sample.{sample}
use pico_lan.AddressField.{new, set_addr, get_addr}
use pico_lan.AddressField.Laws.{get_addr-set_addr}

get_addr-set_addr_example :
    get_addr (set_addr (set_addr new 17 true) 200 true) 17
    ≡ (if 17 == 200 then true else get_addr (set_addr new 17 true) 17)
get_addr-set_addr_example = get_addr-set_addr (set_addr new 17 true) 200 17 true
