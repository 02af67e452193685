-- ===== src/Package/Examples.antt =====
-- The theorems about packages at concrete ids.
use samad_package_manager.Common.{◌≡◌, some, codes}
use samad_package_manager.Package.{sam, new, new_v, to_string, from_str}
use samad_package_manager.Package.Id.{from_str-to_string}

from_str-to_string_example :
    from_str (to_string (new_v (codes "lib:ssl") sam (codes "3.0")))
    ≡ some (new (codes "lib:ssl") sam)
from_str-to_string_example = from_str-to_string (new_v (codes "lib:ssl") sam (codes "3.0"))
