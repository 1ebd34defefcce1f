-- ===== src/Policy.antt =====
-- policy/: which keys of a full database are evicted. What `std::set` returns is a set; the random
-- choice and the sorting are in the two children. Sizes are `size_t`, with its wrap-around.
pub mod Random
pub mod VolatileTtl
use bluzelle.Base.{ℕ, ◌+◌, ◌-◌, ◌%◌, ◌^◌, if◌then◌else◌}
use bluzelle.Bytes.{size}
use bluzelle.Protocol.{Message, create_of, update_of, has_update}

-- `-` on `size_t`.
unfoldable pub sub64 : ℕ → ℕ → ℕ
sub64 a b = (a + 2 ^ 64 - b % 2 ^ 64) % 2 ^ 64

-- The room that the request needs: an update is taken to need its whole value.
unfoldable pub key_value_size : Message → ℕ
key_value_size m =
    if has_update m
    then size (update_of m).value
    else size (create_of m).key + size (create_of m).value
