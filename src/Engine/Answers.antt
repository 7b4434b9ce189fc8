-- ===== src/Engine/Answers.antt =====
-- What an answer that is not an error says of what it was made from (services/engine/src).
use ai_engineering_boilerpla.Base.{◌≡◌, ap, Option, none, some, String}
use ai_engineering_boilerpla.Base.Results.{Result, ok, err, of_ok_eq}
use ai_engineering_boilerpla.Json.{Value}
use ai_engineering_boilerpla.Engine.Wire.{WireFault}
use ai_engineering_boilerpla.Engine.Store.{CommitFault}
use ai_engineering_boilerpla.Engine.Nodes.{TickFault, wired, found}
use ai_engineering_boilerpla.Engine.Control.{parsed, or_panic, in_db, stored}

pub wired-ok : {A : Type 0} (r : Result WireFault A) (a : A) → wired r ≡ ok a → r ≡ ok a
wired-ok (ok b) a e = ap ok (of_ok_eq e)
wired-ok (err f) a e = cc

pub found-ok :
    {A : Type 0} (fault : TickFault) (o : Option A) (a : A) → found fault o ≡ ok a → o ≡ some a
found-ok fault (some b) a e = ap some (of_ok_eq e)
found-ok fault none a e = cc

pub stored-ok : {A : Type 0} (r : Result WireFault A) (a : A) → stored r ≡ ok a → r ≡ ok a
stored-ok (ok b) a e = ap ok (of_ok_eq e)
stored-ok (err f) a e = cc

pub in_db-ok : {A : Type 0} (r : Result CommitFault A) (a : A) → in_db r ≡ ok a → r ≡ ok a
in_db-ok (ok b) a e = ap ok (of_ok_eq e)
in_db-ok (err f) a e = cc

pub parsed-ok : (r : Result String Value) (v : Value) → parsed r ≡ ok v → r ≡ ok v
parsed-ok (ok w) v e = ap ok (of_ok_eq e)
parsed-ok (err f) v e = cc

pub or_panic-ok : {A : Type 0} (o : Option A) (a : A) → or_panic o ≡ ok a → o ≡ some a
or_panic-ok (some b) a e = ap some (of_ok_eq e)
or_panic-ok none a e = cc
