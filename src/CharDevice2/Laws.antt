-- ===== src/CharDevice2/Laws.antt =====
-- What dev_read and dev_write of chardevice2.c do to the buffer and the position.
use codingforfun.CharDevice
