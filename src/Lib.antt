-- ===== src/Lib.antt =====
-- fastboot3DS: the NAND partition table, the file system service, the block devices, the firmware
-- loader and writer of the ARM9, the commands between the processors, and the configuration of the
-- ARM11.
--
-- The program is a bootloader in two halves. The ARM11 (source/arm11) shows menus and reads the
-- configuration; for files and devices it sends commands over PXI to the ARM9 (source/arm9), where
-- ipc_handler.c calls the functions of fs.c, firm.c and firmwriter.c. fs.c stands on FatFs
-- (thirdparty/fatfs) and on the block devices of dev.c, and asks partitions.c for the layout of the
-- NAND.
--
-- Base and its children: Boolean tests, lists, bytes and words that the other files share. Numbers
-- are native; a `u32` sum has its `% 2 ^ 32` written out (add32, sub32), an `s32` result is `ℤ`.
--
-- Partitions: source/arm9/partitions.c. The static array and its counter are the record Table; each
-- function takes it and returns the new one, partitionAdd as partition_add and so on. A name is the
-- text before the terminating NUL. `panic()` is `none`.
--   Partitions/Search, Find, Add, Names: the searches, partitionFind, partitionAdd, and the names.
--
-- Fs: source/arm9/fs.c, with its declarations in include/fs.h, include/arm9/dev.h and
-- include/arm9/ncsd.h.
--   Fs/World: what fs.c calls and does not define, as parameters: the functions of FatFs and the
--     block devices over a state W of their own. IsDisk is what is relied on of a device: a write
--     changes only the sectors that it names, and stores the buffer there if it succeeds.
--   Fs/Sectors: buffers made of sectors.
--   Fs/State: the static variables of fs.c as the record Fs.
--   Fs/Files: fOpen to fUnlink; Fs/Files/Slots, Count, Order: the table of open files.
--   Fs/Dirs: fOpenDir to fMkdir.
--   Fs/Drives: fMount to fFinalizeRawAccess; Fs/Drives/Mounting, RawAccess, Remount: the drives that
--     are unmounted for raw access and mounted again after it.
--   Fs/Protection: isNandProtected, getNandProtRegion, fSetNandProtection; its children on the
--     search, one round of the loop, the invariant of the loop, and the result.
--   Fs/DevBuf: fCreateDeviceBuffer to fReadToDeviceBuffer; Fs/DevBuf/Sizes on its sizes.
--   Fs/RawWrite: fsWriteFromDeviceBuffer; Chunk on one round of its loop, Loop and Masked on the
--     loop, Safety and Guarded on the call.
--   Fs/Image: fVerifyNandImage and fsDeinit, with Check and Deinit.
--   Partitions/Tests, Fs/Tests: a NAND and a FatFs in memory, and runs on them.
--
-- Firm: source/arm9/firm.c. firm_size and the checks of loadVerifyFirm on the bytes of the image, as
-- verify_firm; the SHA engine is an argument.
--   Firm/Load: loadVerifyFirm, with the memory at FIRM_LOAD_ADDR and RAM_FIRM_BOOT_ADDR, the
--     arguments and firmLaunchArgc as the record Firm.
--   Firm/Size, Firm/Verify: the size, and what the checks accept; Firm/Accepted: what loadVerifyFirm
--     as a whole accepts. Firm/Tests: an image and runs on it.
--
-- FirmWriter: source/arm9/firmwriter.c. The image in memory is part of the result of
-- writeFirmPartition; the RSA engine and its keys are an argument.
--   FirmWriter/Keys: the signatures and the key. FirmWriter/Rsa: RSA_verify2048 of
--     source/arm9/hardware/crypto.c. FirmWriter/Blocks, Works: the loop of
--     writeFirmPartition, on any device and on one that works. FirmWriter/Write, Update: the whole
--     functions. FirmWriter/Tests: images and runs.
--
-- Dev: source/arm9/dev.c. The static variables are the record Devices, with the partition table; the
-- functions of sdmmc.c and the timer are the parameter Mmc. The initialization of the controller,
-- with the register that is set after it, is its field `init`.
--   Dev/Aes: AES_addCounter and AES_ctr of source/arm9/hardware/crypto.c over the engine.
--     IsCounterMode is what is relied on of the engine: it keeps the number of bytes, a run is two
--     runs one after the other, and running twice gives the bytes back.
--   Dev/Nand: reads and writes of the decrypted NAND. Dev/Nand/Chunks, Write, RoundTrip: the loop, a
--     write, and a read after it. IsNand is what is relied on of the NAND.
--   Dev/Header: sdmmc_dnand_init. Dev/Header/SetUp, Entries, Init: a round, the table, and the whole
--     function.
--   Dev/Tests: a NAND and an engine in memory. Fs/Memory: the NAND that the tests share.
--
-- Pxi: source/hardware/pxi.c with the commands of include/ipc_handler.h.
--   Pxi/Client: the functions of source/arm11/fs.c, firmwriter.c and firm.c, as the commands that
--     they send. Pxi/Handler: IPC_handleCmd of source/arm9/ipc_handler.c, up to the call. No function
--     sends the command for the boot environment; those that shut the ARM9 down have no arguments.
--   Pxi/Exchange: pxiIrqHandler and PXI_sendCmd on the words in the FIFOs. Pxi/Remote: a call
--     of the ARM11 as a call of the ARM9. Pxi/Sequence: calls one after the other. The calls themselves
--     are an argument, `serve`. A side sends all its words before the other takes the first; the sleep
--     of PXI_sendCmd, and that an interrupt may come before it, are not modelled.
--
-- Util: source/util.c, on memory as a list of bytes. FsUtils: source/fsutils.c, over the functions
-- of Fs/Files, Fs/Dirs and Fs/Drives; the functions of source/arm11/fs.c of the same names pass the
-- calls on over PXI.
--
-- Config: source/arm11/config.c. The static variables are the record Config; a pointer into the file
-- buffer is an offset. Whether malloc of a size succeeds is the argument `alloc`. The outer `none` of
-- a result is a panic, in the parser that the fuel ran out, or in writeBootOptionPad a text that goes
-- past the end of its array.
--   Config/Scan: findNextDefinition, parseDefinition and the first pass of parseConfigFile. Keys,
--     Lines, Entries, Pass and Texts are about lines that were printed, Fuel about the end of the
--     loops.
--   Config/Edit: writeAddDefinitionText to removeDefinition; Holds, Add, Update and Others
--     on what they leave in the buffer.
--   Config/Values: isValidPath and the parse functions, with the texts that the write functions make;
--     Paths on paths, PadNames, Pads and PadRoom on button combinations.
--   Config/Write: the write functions; Keeps, Stored and Outcomes on what they
--     change. Config/Api: the functions by key, with SetData on configSetKeyData. Config/File:
--     loadConfigFile to moveConfigFile, over FsUtils and Fs. Config/Tests: runs.
--
-- A handle is the bit pattern of the `s32`. What malloc returns is an argument of
-- f_create_device_buffer. A call that the code makes only on some branch is bound before the branch,
-- and its result is used only there.
--
-- The do-while loop of fsWriteFromDeviceBuffer runs on fuel, one more than the number of sectors;
-- it is enough because each round takes at least one sector while the regions are sorted, as they
-- are on a console. The loops over the text of the configuration run on one more than its bytes,
-- enough because each round takes at least one; parse_pad runs on the length of its text for the
-- same reason, and the digits of a number of 32 bits are ten at most. The loop of
-- writeFirmPartition runs on the blocks of 128 KB and one, that of the encrypted writes on the
-- chunks of eight sectors and one, and that of AES_ctr on the runs of 0xFFFE blocks and one, as
-- many as there are rounds at most. All other loops are structural.
--
-- Not modelled: the contents of FatFs and of the drivers, the memory outside the device buffer, and
-- the parts of the program that the file list above does not name: the launch of a firmware, the
-- menus, the hardware. Nor are the assertions (fb_assert) and the cache.
pub mod Base
pub mod Config
pub mod Dev
pub mod Firm
pub mod FirmWriter
pub mod Fs
pub mod FsUtils
pub mod Partitions
pub mod Pxi
pub mod Util
