-- ===== src/Frontend/Storage/Tests.antt =====
-- Storing a position.
use stellax.Base.{◌≡◌, refl, true, some}
use stellax.Base.Int.{pos, negsuc}
use stellax.Indexer.Rows.{same_text}
use stellax.Indexer.Decode.Values.{digits, to_string, codes}
use stellax.Frontend.Storage.{
  Value, bool, number, string, bigint, array, object, nil, cons, end, field, big_int, replace, get,
  to_big_int, revived, revive, reserved,
}
use stellax.Frontend.Storage.Restored.{Unreserved, revive-replace}

abbrev position : Value
position = object (
    field (codes "positionId") (bigint (pos 12)) (
      field (codes "margin") (bigint (negsuc 4))
        (field (codes "tags") (array (cons (bool true) (cons (number (pos 3)) nil))) end)))

revive-replace_example : revive (replace position) ≡ some position
unfolding Unreserved same_text
revive-replace_example = revive-replace position (refl, tt, (refl, tt, (refl, (tt, (tt, tt)), tt)))

printed : to_string (negsuc 119) ≡ codes "-120"
unfolding to_string digits
printed = refl

-- an object that has the property itself does not come back
lost : revive (replace (object (field reserved (string (codes "7")) end))) ≡ some (bigint (pos 7))
unfolding revive replace revived get to_big_int big_int same_text
lost = refl
