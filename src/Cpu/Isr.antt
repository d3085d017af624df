-- ===== src/Cpu/Isr.antt =====
-- kernel/arch/i386/cpu/isr.c: the message of an exception. The processor is halted behind it.
use hypnos.Base.{ℕ, List, [], ◌∷◌, ◌++◌, ◌==◌, String, codes, get_or, if◌then◌else◌}
use hypnos.CStr.{CString}
use hypnos.Syscall.{digits}

-- `exception_messages`
unfoldable pub exception_messages : List String
exception_messages =
    "Division By Zero" ∷ "Debug" ∷ "Non-maskable Interrupt" ∷ "Breakpoint" ∷ "Overflow"
    ∷ "Bound Range Exceeded" ∷ "Invalid Opcode" ∷ "Device Not Available" ∷ "Double Fault"
    ∷ "Coprocessor Segment Overrun" ∷ "Invalid TSS" ∷ "Segment Not Present" ∷ "Stack-Segment Fault"
    ∷ "General Protection Fault" ∷ "Page Fault" ∷ "Reserved" ∷ "x87 Floating-Point Exception"
    ∷ "Alignment Check" ∷ "Machine Check" ∷ "SIMD Floating-Point Exception"
    ∷ "Virtualization Exception" ∷ "Reserved" ∷ "Reserved" ∷ "Reserved" ∷ "Reserved" ∷ "Reserved"
    ∷ "Reserved" ∷ "Reserved" ∷ "Reserved" ∷ "Reserved" ∷ "Reserved" ∷ "Reserved" ∷ []

-- What `kprint_u32` prints; its loop is that of the system calls.
unfoldable pub decimal : ℕ → CString
decimal v = if v == 0 then b'0' ∷ [] else digits 16 v []

-- What `isr_dispatch` prints, for a vector below 32.
unfoldable pub isr_dispatch : ℕ → ℕ → CString
unfolding decimal
isr_dispatch vector error =
    codes "CPU Exception: "
    ++ (codes (get_or exception_messages vector "")
        ++ (codes "\nError code: " ++ (decimal error ++ codes "\nHalting.\n")))

-- What `exception_handler_common` prints, for a vector below 32.
unfoldable pub exception_handler_common : ℕ → CString
unfolding decimal
exception_handler_common n =
    codes "CPU Exception: "
    ++ (codes (get_or exception_messages n "")
        ++ (codes " (vector " ++ (decimal n ++ codes ")\nSystem halted.\n")))

-- `isr_handler0` to `isr_handler31`, which the macro DEFINE_ISR_HANDLER makes.
unfoldable pub isr_handler : ℕ → CString
isr_handler n = exception_handler_common n
