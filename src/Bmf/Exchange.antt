-- ===== src/Bmf/Exchange.antt =====
-- Values that are written are read again.
use xul.Prelude.{◌+◌, ◌*◌, ◌-◌, ◌≤◌, ◌≡◌, some, Bytes, length, drop, true, leb, arith}
use xul.Bmf.Values.{Value, returned, read}
use xul.Bmf.Stored.{Storable, item_bytes, write_item, Writes-item}
use xul.Bmf.ReadBack.{Stands, forward}
use xul.Bmf.ReadItems.{read_value-back}
use xul.Streams.MemoryInput.{Input, available}
use xul.Streams.MemoryOutput.{Output}
use xul.Streams.Writing.{wrote, drop-wrote, length-wrote}

read-Stands :
    (v : Value) (rest : Bytes) (is : Input)
    → Storable v
    → is.position + length (item_bytes v) ≤ length is.buffer
    → Stands (item_bytes v) rest is
    → read is ≡ returned v (forward (length (item_bytes v)) is)
unfolding read available
read-Stands v rest is h fits st =
    let enough : leb is.position (length is.buffer) ≡ true = ground (arith, fits) in
    rw enough
      (read_value-back v (2 * (length is.buffer - is.position) + 2) rest is h (omega arith) st)

-- A value of integers, strings, lists and dicts, nested to any depth, written by the calls of the
-- writer where its bytes fit, is read again from where it was written, up to the end of what was
-- written; the integers have 64 bits, the strings are no longer than the reader takes, and the
-- keys of a dict come in their order.
pub read-write_item :
    (v : Value) (os : Output)
    → Storable v
    → os.position + length (item_bytes v) ≤ length os.buffer
    → (written : Output) × (write_item v os ≡ some written)
      × (read (record { buffer = written.buffer; position = os.position })
          ≡ returned v (record { buffer = written.buffer; position = written.position }))
unfolding Stands forward wrote
read-write_item v os h fits =
    let bytes = item_bytes v in
    let same = length-wrote bytes os fits in
    (
      wrote bytes os,
      Writes-item v h os fits,
      read-Stands v (drop (os.position + length bytes) os.buffer)
          (record { buffer = (wrote bytes os).buffer; position = os.position }) h
          (omega (arith, same)) (omega (arith, same), drop-wrote bytes os fits),
    )
