-- ===== src/Example/Frozen.antt =====
-- The text of the sample contract as scripts/freeze-contract.py freezes it.
use whpstanding.Prelude.{◌≡◌, refl, []}
use whpstanding.Result.{ok}
use whpstanding.Text.{Text}
use whpstanding.Canonical.{canonical}
use whpstanding.Freeze.{frozen, frozen_items, frozen_fields, frozen_dict}
use whpstanding.Freeze.Agrees.{canonical-frozen}
use whpstanding.Example.World.{force, contract}
use whpstanding.Example.Running.{running}

abbrev contract_text : Text
contract_text = force [] (canonical contract 0)

contract_canonical : canonical contract 0 ≡ ok contract_text
unfolding running
contract_canonical = refl

canonical-frozen_example : frozen contract ≡ ok contract_text
canonical-frozen_example = canonical-frozen contract 0 contract_text contract_canonical

-- the same text, computed
frozen_test : frozen contract ≡ ok contract_text
unfolding running frozen frozen_items frozen_fields frozen_dict
frozen_test = refl
