-- ===== src/Cpu/Irq.antt =====
-- kernel/arch/i386/cpu/irq.c: the hardware interrupts. A handler is a value of `H`; the bytes that go
-- to the interrupt controllers are pairs of a port and a value. The gates stand in Idt.
pub mod Dispatch
use hypnos.Base.{
  ℕ, ◌+◌, Bool, Option, none, some, List, [], ◌∷◌, ◌++◌, ltb, leb, if◌then◌else◌, get_or, set,
  replicate,
}
use hypnos.Base.Int.{ℤ, pos, negsuc}

abbrev pub pic1 : ℕ
pic1 = 0x20

abbrev pub pic2 : ℕ
pic2 = 0xA0

abbrev pub pic_eoi : ℕ
pic_eoi = 0x20

module _ {H : Type 0} where
  -- `irq_handlers` before the first registration
  abbrev pub no_handlers : List (Option H)
  no_handlers = replicate 16 none

  -- `irq_handler_c`: the handler that it calls, and the bytes that it sends afterwards. The entry points
  -- pass no negative number.
  unfoldable pub irq_handler_c : ℕ → List (Option H) → Option H × List (ℕ × ℕ)
  irq_handler_c irq_no handlers = (
    if ltb irq_no 16 then get_or handlers irq_no none else none,
    (if leb 8 irq_no then (pic2, pic_eoi) ∷ [] else []) ++ ((pic1, pic_eoi) ∷ []),
  )

  -- `irq_register_handler`
  unfoldable pub irq_register_handler : ℤ → H → List (Option H) → List (Option H)
  irq_register_handler (pos irq) handler handlers =
      if ltb irq 16 then set handlers irq (some handler) else handlers
  irq_register_handler (negsuc n) handler handlers = handlers

-- The bytes that `irq_install` sends, where the masks were `a1` and `a2`.
unfoldable pub irq_install : ℕ → ℕ → List (ℕ × ℕ)
irq_install a1 a2 =
    (pic1, 0x11)
    ∷ (pic2, 0x11)
    ∷ (pic1 + 1, 0x20)
    ∷ (pic2 + 1, 0x28)
    ∷ (pic1 + 1, 0x04)
    ∷ (pic2 + 1, 0x02)
    ∷ (pic1 + 1, 0x01)
    ∷ (pic2 + 1, 0x01)
    ∷ (pic1 + 1, a1)
    ∷ (pic2 + 1, a2)
    ∷ []
