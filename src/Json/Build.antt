-- ===== src/Json/Build.antt =====
-- tamga_json_array_append and tamga_json_object_set of src/util/json.c, on a container with the
-- count and the capacity of its array.
use tamga_c.Prelude.{ℕ, ◌+◌, if◌then◌else◌, Bytes, c_string}
use tamga_c.Memory.Exec.{Exec, pure, ◌>>=◌}
use tamga_c.Json.{Json, Items, Members}
use tamga_c.Json.Clone.{
  Refused, pointer_size, member_size, grow, snoc, copy_key, has_key, replace, snoc_member,
}

unfoldable pub array_append : Items → ℕ → ℕ → Json → Exec Refused (Items × ℕ × ℕ)
array_append items count capacity item = do
  capacity' ← grow capacity count pointer_size
  pure (snoc items item, count + 1, capacity')

-- The key is a C string. A key that is there gets the new value, another one goes to the end.
unfoldable pub object_set : Members → ℕ → ℕ → Bytes → Json → Exec Refused (Members × ℕ × ℕ)
object_set members count capacity key item =
    if has_key (c_string key) members
    then pure (replace (c_string key) item members, count, capacity)
    else do
      capacity' ← grow capacity count member_size
      copy ← copy_key (c_string key)
      pure (snoc_member members copy item, count + 1, capacity')
